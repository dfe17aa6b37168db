-- ===== src/ServerState/Users.antt =====
-- The register of identified connections, and the counts that it keeps.
use fserv.Prelude.{
  ℕ, suc, ◌+◌, ◌≡◌, refl, ap, ◌∙◌, true, false, Bool-cases, inl, inr, some, [], ◌∷◌, ◌==◌, ==_iff,
  arith, if◌then◌else◌, length, Option-cases,
}
use fserv.Prelude.Bytes.{Bytes}
use fserv.Prelude.Int.{ℤ, pos, ◌+ℤ◌, ◌≤ℤ◌}
use fserv.Prelude.Maps.{
  Map, bytes_eq, nat_eq, lookup, insert, erase, has, Distinct, insert-Distinct, erase-Distinct,
  length-insert, length-erase, lookup-insert, lookup-erase, same, same_iff, erase_absent,
}
use fserv.Connection.{Connection}
use fserv.Rooms.{Heap}
use fserv.ServerState.{
  ServerState, count_at, add_connection, count_down, forget_connection, remove_connection,
}

-- How many of the connections in the register have that address.
abbrev pub from_address : (ℕ → Connection) → ℕ → Map Bytes ℕ → ℕ
from_address cons addr [] = 0
from_address cons addr ((name, con) ∷ m) =
    (if (cons con).client_address == addr then 1 else 0) + from_address cons addr m

-- The counts are those of the register.
pub record IsAccounted (h : Heap) (s : ServerState) : Type 0 where
  pub distinct : Distinct s.connection_map
  pub users : s.user_count ≡ pos (length s.connection_map)
  pub most : s.user_count ≤ℤ s.max_user_count
  pub per_address :
      (addr : ℕ)
      → count_at addr s.connection_count_map
        ≡ pos (from_address h.connections addr s.connection_map)

count_at-insert :
    (addr a : ℕ) (n : ℤ) (m : Map ℕ ℤ)
    → count_at a (insert addr n m) ≡ (if addr == a then n else count_at a m)
unfolding count_at
count_at-insert addr a n m = ground (arith, lookup-insert addr a n m)

count_at-erase :
    (addr a : ℕ) (m : Map ℕ ℤ)
    → count_at a (erase addr m) ≡ (if addr == a then pos 0 else count_at a m)
unfolding count_at
count_at-erase addr a m = ground (arith, lookup-erase addr a m)

from_address-insert :
    (cons : ℕ → Connection) (addr : ℕ) (name : Bytes) (con : ℕ) (m : Map Bytes ℕ)
    → has name m ≡ false
    → from_address cons addr (insert name con m)
      ≡ (if (cons con).client_address == addr then 1 else 0) + from_address cons addr m
unfolding insert has
from_address-insert cons addr name con [] out = refl
from_address-insert cons addr name con ((j, w) ∷ m) out =
    ground (arith, from_address-insert cons addr name con m)

from_address-erase :
    (cons : ℕ → Connection) (addr : ℕ) (name : Bytes) (con : ℕ) (m : Map Bytes ℕ)
    → Distinct m
    → lookup name m ≡ some con
    → from_address cons addr m
      ≡ (if (cons con).client_address == addr then 1 else 0) + from_address cons addr (erase name m)
unfolding erase lookup
from_address-erase cons addr name con [] d e = ground arith
from_address-erase cons addr name con ((j, w) ∷ m) d e = elim (Bool-cases (same j name)) [
  | inl h ↦ ground (arith, same_iff j name, erase_absent name m)
  | inr h ↦ ground (arith, from_address-erase cons addr name con m d.1)
]

has_of_lookup :
    (name : Bytes) (con : ℕ) (m : Map Bytes ℕ) → lookup name m ≡ some con → has name m ≡ true
unfolding lookup has
has_of_lookup name con [] e = ground arith
has_of_lookup name con ((j, w) ∷ m) e = ground (arith, has_of_lookup name con m)

-- If no connection is registered under the name, then adding one under it keeps the accounts: each
-- name stands once in the register, the user count is its size and at most the highest count so
-- far, and every address is counted as often as connections in the register have it.
pub add_connection-IsAccounted :
    (h : Heap) (name : Bytes) (con : ℕ) (s : ServerState)
    → has name s.connection_map ≡ false
    → IsAccounted h s
    → IsAccounted h (add_connection h name con s)
unfolding add_connection ◌+ℤ◌
add_connection-IsAccounted h name con s out v = record {
  distinct = insert-Distinct name con s.connection_map v.distinct;
  users = ground (arith, v.users, length-insert name con s.connection_map);
  most = ground (arith, v.most);
  per_address = λ a. ground (
    arith,
    ==_iff (h.connections con).client_address a,
    v.per_address a,
    count_at-insert (h.connections con).client_address a
        (count_at (h.connections con).client_address s.connection_count_map +ℤ pos 1)
        s.connection_count_map,
    from_address-insert h.connections a name con s.connection_map out,
  );
}

count_at-count_down :
    (addr a : ℕ) (m : Map ℕ ℤ) (n : ℕ)
    → count_at addr m ≡ pos (suc n)
    → count_at a (count_down addr m) ≡ (if addr == a then pos n else count_at a m)
unfolding count_down ◌+ℤ◌
count_at-count_down addr a m n e =
    ground (arith, count_at-insert addr a (pos n) m, count_at-erase addr a m)

forget_connection-IsAccounted :
    (h : Heap) (name : Bytes) (con : ℕ) (s : ServerState)
    → lookup name s.connection_map ≡ some con
    → IsAccounted h s
    → IsAccounted h (forget_connection h name (some con) s)
unfolding forget_connection ◌+ℤ◌
forget_connection-IsAccounted h name con s e v =
    let addr = (h.connections con).client_address in
    let gone = from_address h.connections addr (erase name s.connection_map) in
    let inside = has_of_lookup name con s.connection_map e in
    let size = length-erase name s.connection_map v.distinct in
    let fewer : (a : ℕ)
        → from_address h.connections a s.connection_map
          ≡ (if addr == a then 1 else 0)
            + from_address h.connections a (erase name s.connection_map) =
      λ a. from_address-erase h.connections a name con s.connection_map v.distinct e in
    let self : (addr == addr) ≡ true = ground arith in
    let count : count_at addr s.connection_count_map ≡ pos (suc gone) =
      v.per_address addr ∙ ap pos (fewer addr ∙ (rw self (omega arith))) in
    record {
      distinct = erase-Distinct name s.connection_map v.distinct;
      users = ground (arith, v.users, size, inside);
      most = ground (arith, v.most, v.users, size, inside);
      per_address = λ a. ground (
        arith,
        ==_iff addr a,
        v.per_address a,
        fewer a,
        count_at-count_down addr a s.connection_count_map gone count,
      );
    }

-- Removing the connection of a name, whether or not there is one, keeps the accounts: each name
-- stands once in the register, the user count is its size and at most the highest count so far,
-- and every address is counted as often as connections in the register have it.
pub remove_connection-IsAccounted :
    (h : Heap) (name : Bytes) (s : ServerState)
    → IsAccounted h s
    → IsAccounted h (remove_connection h name s)
unfolding remove_connection forget_connection
remove_connection-IsAccounted h name s v = elim (Option-cases (lookup name s.connection_map)) [
  | inl e ↦ rw e v
  | inr r ↦ rw (r.1) (forget_connection-IsAccounted h name r.0 s r.1 v)
]
