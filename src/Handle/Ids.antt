-- ===== src/Handle/Ids.antt =====
-- The ids that TraceHandle::allocateMsgId of QuickTrace.cpp gives to messages.
use quicktrace_public.Base.{
  ℕ, zero, suc, ◌+◌, ◌-◌, ◌%◌, ◌^◌, ◌<◌, ◌≡◌, ap, ◌∙◌, arith, List, [], ◌∷◌,
}
use quicktrace_public.Base.{some, get_elem?, ◌==◌, if◌then◌else◌}
use quicktrace_public.Handle.{allocate_msg_id}

-- The ids of `n` messages that have none yet, one after the other.
unfoldable pub allocated : ℕ → ℕ → List ℕ
unfolding allocate_msg_id
allocated zero next = []
allocated (suc n) next = let (id, next') = allocate_msg_id 0 next in id ∷ allocated n next'

-- The id after `p` others, when the next one is `next`.
abbrev Follows : ℕ → ℕ → Type 0
Follows p next = (if next == 0 then 1 else next) ≡ p % (2 ^ 32 - 1) + 1

allocate_msg_id-Follows :
    (p next : ℕ)
    → Follows p next
    → ((allocate_msg_id 0 next).0 ≡ p % (2 ^ 32 - 1) + 1)
      × Follows (p + 1) (allocate_msg_id 0 next).1
unfolding allocate_msg_id
allocate_msg_id-Follows p next h = ground (arith, h)

allocated-at :
    (n k p next : ℕ)
    → Follows p next
    → k < n
    → get_elem? (allocated n next) k ≡ some ((p + k) % (2 ^ 32 - 1) + 1)
unfolding allocated
allocated-at zero k p next h lt = elim lt [ ]
allocated-at (suc n) zero p next h lt =
    let z : p + 0 ≡ p = omega arith in rw z (ap some (allocate_msg_id-Follows p next h).0)
allocated-at (suc n) (suc k) p next h lt =
    let z : p + suc k ≡ p + 1 + k = omega arith in
    rw z (allocated-at n k (p + 1) _ (allocate_msg_id-Follows p next h).1 (omega arith))

-- The messages of a handle get the ids from 1 to 2 ^ 32 - 1 in turn, and then those from 1 on again: none
-- gets the id 0, by which a message shows that it has no id yet, though the counter overflows.
pub allocated_lem : (n k : ℕ) → k < n → get_elem? (allocated n 1) k ≡ some (k % (2 ^ 32 - 1) + 1)
allocated_lem n k h =
    let z : 0 + k ≡ k = omega arith in
    allocated-at n k 0 1 (omega arith) h ∙ ap (λ m. some (m % (2 ^ 32 - 1) + 1)) z
