-- ===== src/Policy/Rows.antt =====
-- Tables of policies: updates of one row, unique keys, and the audit entries that accompany an
-- approval.
use mathlib.Core.Path.{subst}
use guard_x.Common.{
  All-snoc, ◌≡◌, inl, inr, String, false, none, some, List, [], ◌∷◌, ◌++◌, arith, All, eq_iff,
  some_inj, Bool-cases,
}
use guard_x.Policy.Registry.{PolicyRow, has_key, find_policy, update_row}

pub All-update_row :
    (P : PolicyRow → Type 0) (n : PolicyRow) (rs : List PolicyRow)
    → P n
    → All P rs
    → All P (update_row n rs)
unfolding update_row
All-update_row P n [] p h = tt
All-update_row P n (r ∷ rs) p h = elim (Bool-cases (has_key n.tenant_id n.policy_id n.version r)) [
  | inl same ↦ rw same (p, h.1)
  | inr other ↦ rw other (h.0, All-update_row P n rs p h.1)
]

pub All-map :
    (P Q : PolicyRow → Type 0) (rs : List PolicyRow)
    → ((r : PolicyRow) → P r → Q r)
    → All P rs
    → All Q rs
All-map P Q [] f h = tt
All-map P Q (r ∷ rs) f h = (f r h.0, All-map P Q rs f h.1)

-- What is found has the key that was looked for, and is one of the rows.
pub find_policy_sound :
    (P : PolicyRow → Type 0) (tid pid ver : String) (rs : List PolicyRow) (r : PolicyRow)
    → find_policy tid pid ver rs ≡ some r
    → All P rs
    → P r × (r.tenant_id ≡ tid) × (r.policy_id ≡ pid) × (r.version ≡ ver)
unfolding find_policy
find_policy_sound P tid pid ver [] r e h = absurd (cc e)
find_policy_sound P tid pid ver (x ∷ rs) r e h = elim (Bool-cases (has_key tid pid ver x)) [
  | inl same ↦
      subst (λ y. P y × (y.tenant_id ≡ tid) × (y.policy_id ≡ pid) × (y.version ≡ ver))
        (some_inj (rw same at e))
        (
          h.0,
          ground (arith, eq_iff x.tenant_id tid),
          ground (arith, eq_iff x.policy_id pid),
          ground (arith, eq_iff x.version ver),
        )
  | inr other ↦ find_policy_sound P tid pid ver rs r (rw other at e) h.1
]

abbrev pub KeyDiffers : PolicyRow → PolicyRow → Type 0
KeyDiffers r s = has_key r.tenant_id r.policy_id r.version s ≡ false

-- No two rows have one primary key.
abbrev pub IsUnique : List PolicyRow → Type 0
IsUnique [] = Unit
IsUnique (r ∷ rs) = All (KeyDiffers r) rs × IsUnique rs

-- The rows have one primary key.
abbrev pub SameKey : PolicyRow → PolicyRow → Type 0
SameKey r s = (r.tenant_id ≡ s.tenant_id) × (r.policy_id ≡ s.policy_id) × (r.version ≡ s.version)

KeyDiffers-update :
    (r n : PolicyRow) (rs : List PolicyRow)
    → All (KeyDiffers r) rs
    → All (KeyDiffers r) (update_row n rs)
unfolding update_row
KeyDiffers-update r n [] h = tt
KeyDiffers-update r n (s ∷ rs) h = elim (Bool-cases (has_key n.tenant_id n.policy_id n.version s)) [
  | inl same ↦ rw same (
    ground (
      arith,
      h.0,
      eq_iff s.tenant_id n.tenant_id,
      eq_iff s.policy_id n.policy_id,
      eq_iff s.version n.version,
      eq_iff s.tenant_id r.tenant_id,
      eq_iff n.tenant_id r.tenant_id,
    ),
    h.1,
  )
  | inr other ↦ rw other (h.0, KeyDiffers-update r n rs h.1)
]

pub IsUnique-update_row :
    (n : PolicyRow) (rs : List PolicyRow) → IsUnique rs → IsUnique (update_row n rs)
unfolding update_row
IsUnique-update_row n [] h = tt
IsUnique-update_row n (s ∷ rs) h = elim (Bool-cases (has_key n.tenant_id n.policy_id n.version s)) [
  | inl same ↦ rw same (
    All-map (KeyDiffers s) (KeyDiffers n) rs
        (λ r d. ground (
          arith,
          d,
          eq_iff s.tenant_id n.tenant_id,
          eq_iff s.policy_id n.policy_id,
          eq_iff s.version n.version,
        ))
        h.0,
    h.1,
  )
  | inr other ↦ rw other (KeyDiffers-update s n rs h.0, IsUnique-update_row n rs h.1)
]

find_policy-none :
    (r n : PolicyRow) (rs : List PolicyRow)
    → find_policy n.tenant_id n.policy_id n.version (r ∷ rs) ≡ none
    → KeyDiffers r n × (find_policy n.tenant_id n.policy_id n.version rs ≡ none)
unfolding find_policy
find_policy-none r n rs e = elim (Bool-cases (has_key n.tenant_id n.policy_id n.version r)) [
  | inl same ↦ cc (rw same at e)
  | inr other ↦ (
    ground (
      arith,
      other,
      eq_iff r.tenant_id n.tenant_id,
      eq_iff r.policy_id n.policy_id,
      eq_iff r.version n.version,
      eq_iff n.tenant_id r.tenant_id,
      eq_iff n.policy_id r.policy_id,
      eq_iff n.version r.version,
    ),
    rw other at e,
  )
]

pub IsUnique-snoc :
    (rs : List PolicyRow) (n : PolicyRow)
    → IsUnique rs
    → find_policy n.tenant_id n.policy_id n.version rs ≡ none
    → IsUnique (rs ++ n ∷ [])
IsUnique-snoc [] n h e = (tt, tt)
IsUnique-snoc (r ∷ rs) n h e =
    let (d, e') = find_policy-none r n rs e in
    (All-snoc (KeyDiffers r) rs n h.0 d, IsUnique-snoc rs n h.1 e')
