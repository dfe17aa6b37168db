-- ===== src/ServerState/Saved/Rooms/Chosen.antt =====
-- The channels of the map that are saved, and those that are not.
use fserv.Prelude.{
  ℕ, ◌≡◌, ◌⊎◌, refl, ap, sym, ◌∙◌, Bool, true, false, some, List, [], ◌∷◌, All, arith,
  if◌then◌else◌, Bool-cases, inl, inr,
}
use fserv.Prelude.Bytes.{Bytes, IsText}
use fserv.Prelude.Maps.{Map, Distinct, IsSimple, bytes_eq, same, same_iff, lookup, has, member}
use fserv.Channel.{Channel, ChannelType}
use fserv.Rooms.{Heap}
use fserv.ServerState.Saved.Rooms.{key, keys, chosen, Each, IsNamed}

found_split :
    (k name : Bytes) (c c' : ℕ) (m : Map Bytes ℕ)
    → lookup k ((name, c') ∷ m) ≡ some c
    → (same name k ≡ true) × (c' ≡ c) ⊎ (same name k ≡ false) × (lookup k m ≡ some c)
unfolding lookup
found_split k name c c' m found = elim (Bool-cases (same name k)) [
  | inl e ↦ ground (arith, found)
  | inr e ↦ ground (arith, found)
]

module _ {A : Type 0} (P : A → Type 0) where
  taken : (b : Bool) (x : A) (xs : List A) → b ≡ true → All P (if b then x ∷ xs else xs) → P x
  taken true x xs e all = all.0
  taken false x xs e all = cc

  unchosen : (b : Bool) (x : A) (xs : List A) → All P (if b then x ∷ xs else xs) → All P xs
  unchosen true x xs all = all.1
  unchosen false x xs all = all

module _ (of_type : ChannelType → Bool) (h : Heap) where
  pub chosen-texts :
      (m : Map Bytes ℕ) → IsNamed h m → All (λ ch. IsText ch.name) (chosen of_type h m)
  unfolding chosen
  chosen-texts [] n = tt
  chosen-texts ((name, c) ∷ m) n = elim (Bool-cases (of_type (h.channels c).type)) [
    | inl e ↦ rw e (n.1, chosen-texts m n.2)
    | inr e ↦ rw e (chosen-texts m n.2)
  ]

  pub chosen-Each :
      (P : Channel → Type 0) (m : Map Bytes ℕ) → Each P h m → All P (chosen of_type h m)
  unfolding chosen
  chosen-Each P [] each = tt
  chosen-Each P ((name, c) ∷ m) each = elim (Bool-cases (of_type (h.channels c).type)) [
    | inl e ↦ rw e (each.0, chosen-Each P m each.1)
    | inr e ↦ rw e (chosen-Each P m each.1)
  ]

  pub chosen-absent :
      (k : Bytes) (m : Map Bytes ℕ)
      → IsNamed h m
      → has k m ≡ false
      → member k (keys (chosen of_type h m)) ≡ false
  unfolding chosen has member
  chosen-absent k [] n out = refl
  chosen-absent k ((name, c) ∷ m) n out =
      let first : same name k ≡ false = ground arith in
      let later : has k m ≡ false = ground arith in
      elim (Bool-cases (of_type (h.channels c).type)) [
        | inl e ↦
            let apart : same (key (h.channels c)) k ≡ false =
              ap (λ x. same x k) (sym n.0) ∙ first in
            rw e (rw apart (chosen-absent k m n.2 later))
        | inr e ↦ rw e (chosen-absent k m n.2 later)
      ]

  pub chosen-IsSimple :
      (m : Map Bytes ℕ) → IsNamed h m → Distinct m → IsSimple (keys (chosen of_type h m))
  unfolding chosen
  chosen-IsSimple [] n d = tt
  chosen-IsSimple ((name, c) ∷ m) n d = elim (Bool-cases (of_type (h.channels c).type)) [
    | inl e ↦
        let out =
          ap (λ x. member x (keys (chosen of_type h m))) (sym n.0) ∙ chosen-absent name m n.2 d.0 in
        rw e (out, chosen-IsSimple m n.2 d.1)
    | inr e ↦ rw e (chosen-IsSimple m n.2 d.1)
  ]

  pub chosen-other :
      (k : Bytes) (c : ℕ) (m : Map Bytes ℕ)
      → IsNamed h m
      → Distinct m
      → lookup k m ≡ some c
      → of_type (h.channels c).type ≡ false
      → member k (keys (chosen of_type h m)) ≡ false
  unfolding chosen lookup member
  chosen-other k c [] n d found unsaved = refl
  chosen-other k c ((name, c') ∷ m) n d found unsaved = elim (found_split k name c c' m found) [
    | inl (e, is_c) ↦
        let here = ap (λ x. of_type (h.channels x).type) is_c ∙ unsaved in
        rw here (
          ap (λ x. member x (keys (chosen of_type h m))) (sym ((same_iff name k).0 e))
          ∙ chosen-absent name m n.2 d.0)
    | inr (e, later) ↦
        let rest = chosen-other k c m n.2 d.1 later unsaved in
        let apart : same (key (h.channels c')) k ≡ false = ap (λ x. same x k) (sym n.0) ∙ e in
        elim (Bool-cases (of_type (h.channels c').type)) [
          | inl t ↦ rw t (rw apart rest)
          | inr t ↦ rw t rest
        ]
  ]

  pub chosen-All :
      (P : Channel → Type 0) (k : Bytes) (c : ℕ) (m : Map Bytes ℕ)
      → All P (chosen of_type h m)
      → lookup k m ≡ some c
      → of_type (h.channels c).type ≡ true
      → P (h.channels c)
  unfolding chosen lookup
  chosen-All P k c [] all found saved = cc
  chosen-All P k c ((name, c') ∷ m) all found saved = elim (found_split k name c c' m found) [
    | inl (e, is_c) ↦
        let here = ap (λ x. of_type (h.channels x).type) is_c ∙ saved in
        rw (sym is_c) (taken P (of_type (h.channels c').type) _ _ here all)
    | inr (e, later) ↦
        chosen-All P k c m (unchosen P (of_type (h.channels c').type) _ _ all) later saved
  ]

pub key_of :
    (h : Heap) (k : Bytes) (c : ℕ) (m : Map Bytes ℕ)
    → IsNamed h m
    → lookup k m ≡ some c
    → key (h.channels c) ≡ k
unfolding lookup
key_of h k c [] n found = cc
key_of h k c ((name, c') ∷ m) n found = elim (found_split k name c c' m found) [
  | inl (e, is_c) ↦ ap (λ x. key (h.channels x)) (sym is_c) ∙ sym n.0 ∙ (same_iff name k).0 e
  | inr (e, later) ↦ key_of h k c m n.2 later
]
