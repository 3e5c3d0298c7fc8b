-- ===== src/Mutex/Fifo.antt =====
-- The mutex is granted in the order of the calls of `lock`, and to one client at a time.
use pgasus.Common.{
  ℕ, ◌+◌, ◌≡◌, refl, sym, ap, subst, ◌∙◌, Bool, true, false, Option, none, some, List, [], ◌∷◌,
  ◌++◌, if◌then◌else◌, length, length-append, append-nil, append_assoc, arith,
}
use pgasus.Mutex.{
  WaitObject, new_mutex, must_wait, register_wait, trigger_one, release, lock, unlock,
}

pub data Call : Type 0 where
  locks : (t : ℕ) → Call
  unlocks : Call

-- A mutex with the clients that were granted it, in order, and the number of `unlock` calls that
-- found it locked.
pub record History : Type 0 where
  pub mutex : WaitObject
  pub granted : List ℕ
  pub releases : ℕ

abbrev pub to_list : Option ℕ → List ℕ
to_list none = []
to_list (some t) = t ∷ []

unfoldable pub call : Call → History → History
call (locks t) r =
    let (w, waits) = lock t r.mutex in
    record r { mutex = w; granted = if waits then r.granted else r.granted ++ t ∷ [] }
call unlocks r =
    let (w, next) = unlock r.mutex in
    record {
      mutex = w;
      granted = r.granted ++ to_list next;
      releases = r.releases + (if r.mutex.locked then 1 else 0);
    }

unfoldable pub calls : List Call → History → History
calls [] r = r
calls (c ∷ cs) r = calls cs (call c r)

abbrev pub begin : History
begin = record { mutex = new_mutex; granted = []; releases = 0 }

-- The clients that call `lock`, in order.
unfoldable pub callers : List Call → List ℕ
callers [] = []
callers (locks t ∷ cs) = t ∷ callers cs
callers (unlocks ∷ cs) = callers cs

-- After the callers `ts`.
record IsFair (ts : List ℕ) (r : History) : Type 0 where
  pub order : r.granted ++ r.mutex.clients ≡ ts
  pub single : length r.granted ≡ r.releases + (if r.mutex.locked then 1 else 0)
  pub free : r.mutex.locked ≡ false → r.mutex.clients ≡ []

locks-IsFair :
    (t : ℕ) (ts cs gs : List ℕ) (b : Bool) (n : ℕ)
    → IsFair ts (record { mutex = record { clients = cs; locked = b }; granted = gs; releases = n })
    → IsFair (ts ++ t ∷ []) (
        call
          (Call.locks t)
          (record { mutex = record { clients = cs; locked = b }; granted = gs; releases = n }))
unfolding call lock register_wait must_wait
locks-IsFair t ts cs gs true n i = record {
  order = sym (append_assoc gs cs (t ∷ [])) ∙ ap (λ l. l ++ t ∷ []) i.order;
  single = i.single;
  free = λ h. ground arith;
}
locks-IsFair t ts cs gs false n i = record {
  order =
      let e = i.free refl in
      rw e (
        append-nil (gs ++ t ∷ [])
        ∙ ap (λ l. l ++ t ∷ []) (sym (append-nil gs) ∙ ap (λ l. gs ++ l) (sym e) ∙ i.order));
  single = omega (arith, i.single, length-append gs (t ∷ []));
  free = λ h. ground arith;
}

unlocks-IsFair :
    (ts cs gs : List ℕ) (b : Bool) (n : ℕ)
    → IsFair ts (record { mutex = record { clients = cs; locked = b }; granted = gs; releases = n })
    → IsFair ts (
        call Call.unlocks
          (record { mutex = record { clients = cs; locked = b }; granted = gs; releases = n }))
unfolding call unlock release trigger_one
unlocks-IsFair ts [] gs b n i = record {
  order = ap (λ l. l ++ []) (append-nil gs) ∙ i.order;
  single = ap length (append-nil gs) ∙ omega (arith, i.single);
  free = λ h. refl;
}
unlocks-IsFair ts (c ∷ cs) gs true n i = record {
  order = append_assoc gs (c ∷ []) cs ∙ i.order;
  single = omega (arith, i.single, length-append gs (c ∷ []));
  free = λ h. ground arith;
}
unlocks-IsFair ts (c ∷ cs) gs false n i = absurd (ground (arith, i.free))

calls-IsFair :
    (cs : List Call) (ts : List ℕ) (r : History)
    → IsFair ts r
    → IsFair (ts ++ callers cs) (calls cs r)
unfolding calls callers
calls-IsFair [] ts r i = record {
  order = i.order ∙ sym (append-nil ts);
  single = i.single;
  free = i.free;
}
calls-IsFair (locks t ∷ cs) ts r i =
    subst (λ l. IsFair l (calls cs (call (Call.locks t) r))) (append_assoc ts (t ∷ []) (callers cs))
      (calls-IsFair cs (ts ++ t ∷ []) (call (Call.locks t) r)
        (locks-IsFair t ts r.mutex.clients r.granted r.mutex.locked r.releases i))
calls-IsFair (unlocks ∷ cs) ts r i =
    calls-IsFair cs ts (call Call.unlocks r)
      (unlocks-IsFair ts r.mutex.clients r.granted r.mutex.locked r.releases i)

-- After any calls on a new mutex, those that were granted it and those that wait for it are, in this
-- order, the callers of `lock`. As many were granted it as there were calls of `unlock` that found it
-- locked, and one more while it is locked; nobody waits while it is not.
pub calls-fifo :
    (cs : List Call)
    → ((calls cs begin).granted ++ (calls cs begin).mutex.clients ≡ callers cs)
      × (length (calls cs begin).granted
          ≡ (calls cs begin).releases + (if (calls cs begin).mutex.locked then 1 else 0))
      × ((calls cs begin).mutex.locked ≡ false → (calls cs begin).mutex.clients ≡ [])
calls-fifo cs =
    let i =
      calls-IsFair cs [] begin
        (unfold new_mutex in record { order = refl; single = refl; free = λ h. refl }) in
    (i.order, i.single, i.free)
