-- ===== src/HashTable/Tests.antt =====
-- Runs of the hash table on numbers, and its theorems at concrete tables.
use pgasus.Common.{ℕ, ◌≡◌, refl, none, some, [], ◌∷◌, ◌==◌, ==_iff}
use pgasus.HashTable.Key.{Key}
use pgasus.HashTable.Bins.{BinData, item_count, resize}
use pgasus.HashTable.Placed.{IsPlaced, view}
use pgasus.HashTable.Resize.{resize-Rehashed}
use pgasus.HashTable.Operations.{read}
use pgasus.HashTable.Writes.{value_or}
use pgasus.HashTable.Refines.{is_some}
use pgasus.HashTable.Table.{Table, new_table, index, remove_key, insert_async, bin_of}
use pgasus.HashTable.Laws.{
  IsSound, table_view, TableWrites, bin_of-IsValid, insert_async-TableWrites, index-TableWrites,
  remove_key-TableWrites, new_table-IsSound,
}

instance abbrev pub number_key : Key ℕ
number_key = record { beq = ◌==◌; beq_iff = ==_iff; hash = λ k. k }

-- Four bins on two nodes.
abbrev pub blank : Table ℕ ℕ
blank = new_table 2 (0 ∷ 1 ∷ [])

abbrev pub blank_sound : IsSound 2 blank
blank_sound = (new_table-IsSound {K = ℕ} {V = ℕ} 2 (0 ∷ 1 ∷ [])).0

-- With the value 7 under the key 6.
abbrev pub single : Table ℕ ℕ
single = insert_async 2 0 7 6 blank

abbrev pub single_sound : IsSound 2 single
single_sound = (insert_async-TableWrites 2 0 7 6 blank blank_sound).sound

insert_async-TableWrites_example : TableWrites 2 10 (some 8) single (insert_async 2 0 8 10 single)
insert_async-TableWrites_example = insert_async-TableWrites 2 0 8 10 single single_sound

index-TableWrites_example :
    TableWrites 2 6 (some (value_or (table_view 2 single 6) 0)) single (index 2 0 6 single).0
    × (read (index 2 0 6 single).1 ≡ value_or (table_view 2 single 6) 0)
index-TableWrites_example = index-TableWrites 2 0 6 single single_sound

remove_key-TableWrites_example :
    TableWrites 2 6 none single (remove_key 2 6 single).0
    × ((remove_key 2 6 single).1 ≡ is_some (table_view 2 single 6))
remove_key-TableWrites_example = remove_key-TableWrites 2 6 single single_sound

-- The bin of the key 6, doubled.
abbrev bin : BinData ℕ ℕ
bin = bin_of 2 single 6

resize-Rehashed_example :
    IsPlaced 2 (resize 2 128 bin).space
    × ((resize 2 128 bin).space.num_buckets ≡ 128)
    × (item_count (resize 2 128 bin).space.buckets ≡ item_count bin.space.buckets)
    × ((q : ℕ) → view 2 (resize 2 128 bin).space q ≡ view 2 bin.space q)
resize-Rehashed_example =
    resize-Rehashed 2 bin 128 7 refl (bin_of-IsValid 2 single single_sound 6).placed
