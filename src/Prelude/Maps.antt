-- ===== src/Prelude/Maps.antt =====
-- `unordered_map` as an association list and `unordered_set` as a list, for any type of keys
-- with a Boolean equality. The order of the list stands for the iteration order.
use fserv.Prelude.{
  ℕ, suc, ◌≡◌, refl, ◌↔◌, Bool, true, false, Option, none, some, List, [], ◌∷◌, arith, ◌==◌, ==_iff,
  if◌then◌else◌, length, Bool-cases, inl, inr,
}
use fserv.Prelude.Bytes.{Bytes, eq_bytes, eq_bytes_iff}
use fserv.Prelude.Int.{ℤ, pos, negsuc, eq_ℤ}

pub record Eq {ℓ} (A : Type ℓ) : Type ℓ where
  pub beq : A → A → Bool
  pub beq_iff : (a b : A) → (beq a b ≡ true) ↔ (a ≡ b)

abbrev pub same {ℓ} : {A : Type ℓ} ⦃e : Eq A⦄ → A → A → Bool
same ⦃e⦄ = e.beq

pub same_iff {ℓ} : {A : Type ℓ} ⦃e : Eq A⦄ (a b : A) → (same a b ≡ true) ↔ (a ≡ b)
same_iff ⦃e⦄ = e.beq_iff

pub same_refl {ℓ} : {A : Type ℓ} ⦃e : Eq A⦄ (a : A) → same a a ≡ true
same_refl a = (same_iff a a).1 refl

instance abbrev pub nat_eq : Eq ℕ
nat_eq = record { beq = ◌==◌; beq_iff = ==_iff }

instance abbrev pub bytes_eq : Eq Bytes
bytes_eq = record { beq = eq_bytes; beq_iff = eq_bytes_iff }

pub eq_ℤ_iff : (a b : ℤ) → (eq_ℤ a b ≡ true) ↔ (a ≡ b)
eq_ℤ_iff (pos a) (pos b) = ground arith
eq_ℤ_iff (pos a) (negsuc b) = ground arith
eq_ℤ_iff (negsuc a) (pos b) = ground arith
eq_ℤ_iff (negsuc a) (negsuc b) = ground arith

instance abbrev pub int_eq : Eq ℤ
int_eq = record { beq = eq_ℤ; beq_iff = eq_ℤ_iff }

abbrev pub Map {ℓ κ} : Type ℓ → Type κ → Type (ℓ ⊔ κ)
Map K V = List (K × V)

module _ {ℓ κ} {K : Type ℓ} {V : Type κ} ⦃e : Eq K⦄ where
  unfoldable pub lookup : K → Map K V → Option V
  lookup k [] = none
  lookup k ((j, v) ∷ m) = if same j k then some v else lookup k m

  -- `m[k] = v`
  unfoldable pub insert : K → V → Map K V → Map K V
  insert k v [] = (k, v) ∷ []
  insert k v ((j, w) ∷ m) = if same j k then (j, v) ∷ m else (j, w) ∷ insert k v m

  -- `m.erase(k)`
  unfoldable pub erase : K → Map K V → Map K V
  erase k [] = []
  erase k ((j, w) ∷ m) = if same j k then erase k m else (j, w) ∷ erase k m

  -- `m.count(k) > 0`
  unfoldable pub has : K → Map K V → Bool
  has k [] = false
  has k ((j, v) ∷ m) = if same j k then true else has k m

  pub lookup_absent : (k : K) (m : Map K V) → has k m ≡ false → lookup k m ≡ none
  unfolding lookup has
  lookup_absent k [] out = refl
  lookup_absent k ((j, w) ∷ m) out = ground (arith, lookup_absent k m)

  pub lookup-insert :
      (k j : K) (v : V) (m : Map K V)
      → lookup j (insert k v m) ≡ (if same k j then some v else lookup j m)
  unfolding lookup insert
  lookup-insert k j v [] = refl
  lookup-insert k j v ((i, w) ∷ m) =
      ground (arith, same_iff k j, same_iff i k, same_iff i j, lookup-insert k j v m)

  pub lookup-erase :
      (k j : K) (m : Map K V) → lookup j (erase k m) ≡ (if same k j then none else lookup j m)
  unfolding lookup erase
  lookup-erase k j [] = ground arith
  lookup-erase k j ((i, w) ∷ m) =
      ground (arith, same_iff k j, same_iff i k, same_iff i j, lookup-erase k j m)

  pub has-insert :
      (k j : K) (v : V) (m : Map K V) → has j (insert k v m) ≡ (if same k j then true else has j m)
  unfolding has insert
  has-insert k j v [] = refl
  has-insert k j v ((i, w) ∷ m) =
      ground (arith, same_iff k j, same_iff i k, same_iff i j, has-insert k j v m)

  pub has-erase :
      (k j : K) (m : Map K V) → has j (erase k m) ≡ (if same k j then false else has j m)
  unfolding has erase
  has-erase k j [] = ground arith
  has-erase k j ((i, w) ∷ m) =
      ground (arith, same_iff k j, same_iff i k, same_iff i j, has-erase k j m)

  -- Each key stands once.
  abbrev pub Distinct : Map K V → Type 0
  Distinct [] = Unit {0}
  Distinct ((k, v) ∷ m) = (has k m ≡ false) × Distinct m

  pub insert-Distinct : (k : K) (v : V) (m : Map K V) → Distinct m → Distinct (insert k v m)
  unfolding insert has
  insert-Distinct k v [] d = (refl, tt)
  insert-Distinct k v ((j, w) ∷ m) d = elim (Bool-cases (same j k)) [
    | inl h ↦ rw h (d.0, d.1)
    | inr h ↦
        rw h (
          ground (arith, has-insert k j v m, same_iff k j, same_iff j k),
          insert-Distinct k v m d.1,
        )
  ]

  pub erase-Distinct : (k : K) (m : Map K V) → Distinct m → Distinct (erase k m)
  unfolding erase
  erase-Distinct k [] d = tt
  erase-Distinct k ((j, w) ∷ m) d = elim (Bool-cases (same j k)) [
    | inl h ↦ rw h (erase-Distinct k m d.1)
    | inr h ↦ rw h (ground (arith, has-erase k j m), erase-Distinct k m d.1)
  ]

  pub erase_absent : (k : K) (m : Map K V) → has k m ≡ false → erase k m ≡ m
  unfolding erase has
  erase_absent k [] h = refl
  erase_absent k ((j, w) ∷ m) h = ground (arith, erase_absent k m)

  pub length-insert :
      (k : K) (v : V) (m : Map K V)
      → length (insert k v m) ≡ (if has k m then length m else suc (length m))
  unfolding insert has
  length-insert k v [] = refl
  length-insert k v ((j, w) ∷ m) = ground (arith, length-insert k v m)

  pub length-erase :
      (k : K) (m : Map K V)
      → Distinct m
      → (if has k m then suc (length (erase k m)) else length (erase k m)) ≡ length m
  unfolding erase has
  length-erase k [] d = refl
  length-erase k ((j, w) ∷ m) d = elim (Bool-cases (same j k)) [
    | inl h ↦ ground (arith, same_iff j k, erase_absent k m)
    | inr h ↦ ground (arith, length-erase k m d.1)
  ]

-- Sets, as lists that hold each element once.
module _ {ℓ} {A : Type ℓ} ⦃e : Eq A⦄ where
  -- `s.count(a) > 0`
  unfoldable pub member : A → List A → Bool
  member a [] = false
  member a (x ∷ s) = if same x a then true else member a s

  -- `s.insert(a)`
  unfoldable pub add : A → List A → List A
  add a [] = a ∷ []
  add a (x ∷ s) = if same x a then x ∷ s else x ∷ add a s

  -- `s.erase(a)`
  unfoldable pub remove : A → List A → List A
  remove a [] = []
  remove a (x ∷ s) = if same x a then remove a s else x ∷ remove a s

  pub member-add :
      (a b : A) (s : List A) → member b (add a s) ≡ (if same a b then true else member b s)
  unfolding member add
  member-add a b [] = refl
  member-add a b (x ∷ s) =
      ground (arith, same_iff a b, same_iff x a, same_iff x b, member-add a b s)

  pub member-remove :
      (a b : A) (s : List A) → member b (remove a s) ≡ (if same a b then false else member b s)
  unfolding member remove
  member-remove a b [] = ground arith
  member-remove a b (x ∷ s) =
      ground (arith, same_iff a b, same_iff x a, same_iff x b, member-remove a b s)

  abbrev pub IsSimple : List A → Type 0
  IsSimple [] = Unit {0}
  IsSimple (x ∷ s) = (member x s ≡ false) × IsSimple s

  pub add-IsSimple : (a : A) (s : List A) → IsSimple s → IsSimple (add a s)
  unfolding add member
  add-IsSimple a [] d = (refl, tt)
  add-IsSimple a (x ∷ s) d = elim (Bool-cases (same x a)) [
    | inl h ↦ rw h d
    | inr h ↦
        rw h (ground (arith, member-add a x s, same_iff a x, same_iff x a), add-IsSimple a s d.1)
  ]

  pub remove-IsSimple : (a : A) (s : List A) → IsSimple s → IsSimple (remove a s)
  unfolding remove
  remove-IsSimple a [] d = tt
  remove-IsSimple a (x ∷ s) d = elim (Bool-cases (same x a)) [
    | inl h ↦ rw h (remove-IsSimple a s d.1)
    | inr h ↦ rw h (ground (arith, member-remove a x s), remove-IsSimple a s d.1)
  ]

  remove_absent : (a : A) (s : List A) → member a s ≡ false → remove a s ≡ s
  unfolding remove member
  remove_absent a [] h = refl
  remove_absent a (x ∷ s) h = ground (arith, remove_absent a s)

  pub length-add :
      (a : A) (s : List A) → length (add a s) ≡ (if member a s then length s else suc (length s))
  unfolding add member
  length-add a [] = refl
  length-add a (x ∷ s) = ground (arith, length-add a s)

  pub length-remove :
      (a : A) (s : List A)
      → IsSimple s
      → (if member a s then suc (length (remove a s)) else length (remove a s)) ≡ length s
  unfolding remove member
  length-remove a [] d = refl
  length-remove a (x ∷ s) d = elim (Bool-cases (same x a)) [
    | inl h ↦ ground (arith, same_iff x a, remove_absent a s)
    | inr h ↦ ground (arith, length-remove a s d.1)
  ]
