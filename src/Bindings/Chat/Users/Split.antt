-- ===== src/Bindings/Chat/Users/Split.antt =====
-- How `sendUserList` of src/lua_chat.cpp splits the users.
use fserv.Prelude.{
  ℕ, suc, ◌+◌, ◌%◌, ◌≤◌, ◌<◌, ◌==◌, ==_iff, ◌≡◌, refl, sym, ap, ◌∙◌, false, Bool-cases, inl, inr,
  List, [], ◌∷◌, ◌++◌, append_assoc, arith, length, length-append, All, ltb, ltb→lt,
}
use native.Mathlib.Nat.{zero-mod, mod-add-mod, mod-lt, mod-eq_of_lt, mod_self}
use fserv.Bindings.Chat.Users.{arrays}

-- The arrays one after another.
abbrev pub flat {ℓ} : {A : Type ℓ} → List (List A) → List A
flat [] = []
flat (a ∷ rest) = a ++ flat rest

abbrev pub AtMost {ℓ} : {A : Type ℓ} → ℕ → List (List A) → Type 0
AtMost split = All (λ a. length a ≤ split)

next_index :
    (n split l : ℕ)
    → 0 < split
    → n % split ≡ l
    → (n + 1) % split == 0 ≡ false
    → (n + 1) % split ≡ suc l
next_index n split l positive at more =
    let carried : (n + 1) % split ≡ (l + 1) % split =
      sym (mod-add-mod n split 1) ∙ ap (λ r. (r + 1) % split) at in
    let below : l < split = rw (← at) (mod-lt n positive) in
    elim (Bool-cases (ltb (l + 1) split)) [
      | inl e ↦ carried ∙ (mod-eq_of_lt (ltb→lt (l + 1) split e) ∙ omega arith)
      | inr e ↦
          let at_end : l + 1 ≡ split = ground (arith, e, below) in
          absurd (ground (arith, more, carried ∙ (ap (λ r. r % split) at_end ∙ mod_self split)))
    ]

module _ {ℓ} {A : Type ℓ} where
  arrays-flat : (split n : ℕ) (array xs : List A) → flat (arrays split n array xs) ≡ array ++ xs
  unfolding arrays
  arrays-flat split n array [] = refl
  arrays-flat split n array (x ∷ xs) = elim (Bool-cases ((n + 1) % split == 0)) [
    | inl e ↦ rw e (
        ap (λ ys. (array ++ x ∷ []) ++ ys) (arrays-flat split (n + 1) [] xs)
        ∙ append_assoc array (x ∷ []) xs)
    | inr e ↦ rw e (arrays-flat split (n + 1) (array ++ x ∷ []) xs ∙ append_assoc array (x ∷ []) xs)
  ]

  arrays-AtMost :
      (split n : ℕ) (array xs : List A)
      → 0 < split
      → n % split ≡ length array
      → AtMost split (arrays split n array xs)
  unfolding arrays
  arrays-AtMost split n array [] positive at = (omega (arith, at, mod-lt n positive), tt)
  arrays-AtMost split n array (x ∷ xs) positive at = elim (Bool-cases ((n + 1) % split == 0)) [
    | inl e ↦ rw e (
      omega (arith, at, mod-lt n positive, length-append array (x ∷ [])),
      arrays-AtMost split (n + 1) [] xs positive ((==_iff _ 0).0 e),
    )
    | inr e ↦ rw e (
        arrays-AtMost split (n + 1) (array ++ x ∷ []) xs positive (
          next_index n split (length array) positive at e
          ∙ omega (arith, length-append array (x ∷ []))))
  ]

-- For a split above zero: the arrays that are sent hold every user once and in the order of the
-- register, and none of them holds more than the split.
pub arrays_lem {ℓ} :
    {A : Type ℓ} (split : ℕ) (users : List A)
    → 0 < split
    → (flat (arrays split 0 [] users) ≡ users) × AtMost split (arrays split 0 [] users)
arrays_lem split users positive =
    (arrays-flat split 0 [] users, arrays-AtMost split 0 [] users positive (zero-mod split))
