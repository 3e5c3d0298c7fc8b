-- ===== src/Task/Flags.antt =====
-- The word of states and flags.
use pgasus.Common.{
  ℕ, ◌+◌, ◌*◌, ◌/◌, ◌^◌, ◌<◌, ◌≡◌, sym, ap, ◌∙◌, not, ◌==◌, bit_or, bit_and-mask, bit_and-high,
  bit_and-flag, bit_or-low, arith,
}
use pgasus.Task.{set_state, state, has_flag, keep_thread, keep_scheduler, has_started_flag}

set_state_sum :
    (st flags : ℕ)
    → st < 2 ^ 13
    → flags < 2 ^ 16
    → set_state st flags ≡ st + flags / 2 ^ 13 * 2 ^ 13
unfolding set_state
set_state_sum st flags h h' =
    ap (bit_or st) (bit_and-high 13 16 flags (omega arith) h') ∙ bit_or-low 13 st (flags / 2 ^ 13) h

-- set_state sets the state, and keeps the three flags.
pub set_state-state :
    (st flags : ℕ)
    → st < 2 ^ 13
    → flags < 2 ^ 16
    → (state (set_state st flags) ≡ st)
      × (has_flag keep_thread (set_state st flags) ≡ has_flag keep_thread flags)
      × (has_flag keep_scheduler (set_state st flags) ≡ has_flag keep_scheduler flags)
      × (has_flag has_started_flag (set_state st flags) ≡ has_flag has_started_flag flags)
      × (set_state st flags < 2 ^ 16)
unfolding state has_flag
set_state-state st flags h h' =
    let sum = set_state_sum st flags h h' in
    rw sum (
      bit_and-mask 13 (st + flags / 2 ^ 13 * 2 ^ 13) ∙ omega (arith, h),
      ap (λ x. not (x == 0))
          (bit_and-flag 15 (st + flags / 2 ^ 13 * 2 ^ 13)
            ∙ omega (arith, h)
            ∙ sym (bit_and-flag 15 flags)),
      ap (λ x. not (x == 0))
          (bit_and-flag 14 (st + flags / 2 ^ 13 * 2 ^ 13)
            ∙ omega (arith, h)
            ∙ sym (bit_and-flag 14 flags)),
      ap (λ x. not (x == 0))
          (bit_and-flag 13 (st + flags / 2 ^ 13 * 2 ^ 13)
            ∙ omega (arith, h)
            ∙ sym (bit_and-flag 13 flags)),
      omega (arith, h, h'),
    )
