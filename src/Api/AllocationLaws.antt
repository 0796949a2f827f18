-- ===== src/Api/AllocationLaws.antt =====
-- The id and the node of a new VM: `nextClusterVMID` and `choosePlacementNode` of
-- internal/api/common.go.
use mathlib.Core.Path.{subst}
use mathlib.Core.Logic.{◌↔◌}
use pve_manage.Prelude.{
  ℕ, zero, suc, ◌+◌, ◌≤◌, ◌<◌, ◌≡◌, ap, Bool, true, false, none, some, List, arith, any, ◌==◌,
  Bool-cases, Option-cases, inl, inr, ◌⊎◌, ==_iff,
}
use pve_manage.Api.Allocation.{free_from}

true_and_false : {b : Bool} → b ≡ true → b ≡ false → ⊥
true_and_false h k = cc

abbrev pub is_used : ℕ → List ℕ → Bool
is_used vmid used = any (λ u. u == vmid) used

-- The least id from `start` on that is not used, among `limit` ids.
pub record IsLeastFree (limit start : ℕ) (used : List ℕ) (vmid : ℕ) : Type 0 where
  pub from_start : start ≤ vmid
  pub within : vmid < start + limit
  pub is_free : is_used vmid used ≡ false
  pub least : (u : ℕ) → start ≤ u → u < vmid → is_used u used ≡ true

at_or_after : (m n : ℕ) → m ≤ n → (m ≡ n) ⊎ (suc m ≤ n)
at_or_after m n h = elim (Bool-cases (m == n)) [
  | inl e ↦ inl ((==_iff m n).0 e)
  | inr e ↦ inr (ground arith)
]

module _ (limit start : ℕ) (used : List ℕ) where
  start-IsLeastFree : is_used start used ≡ false → IsLeastFree (suc limit) start used start
  start-IsLeastFree e = record {
    from_start = omega arith;
    within = omega arith;
    is_free = e;
    least = λ u a b. absurd (omega arith);
  }

  skip-IsLeastFree :
      (vmid : ℕ)
      → is_used start used ≡ true
      → IsLeastFree limit (suc start) used vmid
      → IsLeastFree (suc limit) start used vmid
  skip-IsLeastFree vmid e rest = record {
    from_start = omega (arith, rest.from_start);
    within = omega (arith, rest.within);
    is_free = rest.is_free;
    least = λ u a b. elim (at_or_after start u a) [
      | inl p ↦ subst (λ x. is_used x used ≡ true) p e
      | inr p ↦ rest.least u p b
    ];
  }

  after_skip :
      (vmid : ℕ)
      → is_used start used ≡ true
      → IsLeastFree (suc limit) start used vmid
      → IsLeastFree limit (suc start) used vmid
  after_skip vmid e h = elim (at_or_after start vmid h.from_start) [
    | inl p ↦
        let q : is_used vmid used ≡ true = subst (λ x. is_used x used ≡ true) p e in
        absurd (true_and_false q h.is_free)
    | inr p ↦ record {
      from_start = p;
      within = omega (arith, h.within);
      is_free = h.is_free;
      least = λ u a b. h.least u (omega arith) b;
    }
  ]

  is_start :
      (vmid : ℕ)
      → is_used start used ≡ false
      → IsLeastFree (suc limit) start used vmid
      → some start ≡ some vmid
  is_start vmid e h = elim (at_or_after start vmid h.from_start) [
    | inl p ↦ ap some p
    | inr p ↦ absurd (true_and_false (h.least start (omega arith) p) e)
  ]

free_from-IsLeastFree :
    (limit start : ℕ) (used : List ℕ) (vmid : ℕ)
    → free_from limit start used ≡ some vmid
    → IsLeastFree limit start used vmid
unfolding free_from
free_from-IsLeastFree zero start used vmid h = cc
free_from-IsLeastFree (suc limit) start used vmid h = elim (Bool-cases (is_used start used)) [
  | inl e ↦
      skip-IsLeastFree limit start used vmid e
        (free_from-IsLeastFree limit (suc start) used vmid (rw e at h))
  | inr e ↦
      let k : some start ≡ some vmid = rw e at h in
      let q : start ≡ vmid = cc in
      subst (IsLeastFree (suc limit) start used) q (start-IsLeastFree limit start used e)
]

free_from_complete :
    (limit start : ℕ) (used : List ℕ) (vmid : ℕ)
    → IsLeastFree limit start used vmid
    → free_from limit start used ≡ some vmid
unfolding free_from
free_from_complete zero start used vmid h = absurd (omega (arith, h.from_start, h.within))
free_from_complete (suc limit) start used vmid h = elim (Bool-cases (is_used start used)) [
  | inl e ↦
      rw e (free_from_complete limit (suc start) used vmid (after_skip limit start used vmid e h))
  | inr e ↦ rw e (is_start limit start used vmid e h)
]

abbrev pub AllUsed : ℕ → ℕ → List ℕ → Type 0
AllUsed limit start used = (u : ℕ) → start ≤ u → u < start + limit → is_used u used ≡ true

none-AllUsed :
    (limit start : ℕ) (used : List ℕ) → free_from limit start used ≡ none → AllUsed limit start used
unfolding free_from
none-AllUsed zero start used h u a b = absurd (omega arith)
none-AllUsed (suc limit) start used h u a b = elim (Bool-cases (is_used start used)) [
  | inr e ↦ let k : some start ≡ none = rw e at h in absurd (cc)
  | inl e ↦ elim (at_or_after start u a) [
    | inl p ↦ subst (λ x. is_used x used ≡ true) p e
    | inr p ↦ none-AllUsed limit (suc start) used (rw e at h) u p (omega arith)
  ]
]

AllUsed-none :
    (limit start : ℕ) (used : List ℕ) → AllUsed limit start used → free_from limit start used ≡ none
AllUsed-none limit start used h = elim (Option-cases (free_from limit start used)) [
  | inl e ↦ e
  | inr (v, e) ↦
      let l = free_from-IsLeastFree limit start used v e in
      absurd (true_and_false (h v l.from_start l.within) l.is_free)
]

-- The search for an id yields exactly the least id of the range that no VM of the list has, and it
-- fails exactly where every id of the range is taken.
pub free_from_iff :
    (limit start : ℕ) (used : List ℕ)
    → ((vmid : ℕ) → (free_from limit start used ≡ some vmid) ↔ IsLeastFree limit start used vmid)
      × ((free_from limit start used ≡ none) ↔ AllUsed limit start used)
free_from_iff limit start used = (
  λ vmid. (free_from-IsLeastFree limit start used vmid, free_from_complete limit start used vmid),
  (none-AllUsed limit start used, AllUsed-none limit start used),
)
