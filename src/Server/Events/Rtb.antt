-- ===== src/Server/Events/Rtb.antt =====
-- Which datagrams reach the Lua events of the table `rtb`.
use fserv.Prelude.{
  ℕ, ◌≤◌, ◌≡◌, ◌⊎◌, refl, sym, ◌∙◌, true, false, not, ◌&&◌, Bool-cases, inl, inr, ◌++◌, ◌==◌,
  ==_iff, arith, ltb, length, take, drop,
}
use fserv.Prelude.Bytes.{Bytes, eq_bytes, eq_bytes_iff}
use fserv.Json.{Jansson}
use fserv.NativeCommand.{Machine}
use fserv.Server.Events.{Lua, run_lua_rtb, rtb_callback}

too_short : (n : ℕ) → ltb n 37 ≡ true → ¬ (37 ≤ n)
too_short n short long = ground (arith, short, long)

long_enough : (n : ℕ) → ltb n 37 ≡ false → 37 ≤ n
long_enough n h = ground (arith, h)

let_in : (s a b : ℕ) → (not (s == a) && not (s == b)) ≡ false → (s ≡ a) ⊎ (s ≡ b)
let_in s a b h = elim (Bool-cases (s == a)) [
  | inl e ↦ inl ((==_iff s a).0 e)
  | inr e ↦ elim (Bool-cases (s == b)) [
    | inl f ↦ inr ((==_iff s b).0 f)
    | inr f ↦ ground (arith, e, f, h)
  ]
]

kept_out : (s a b : ℕ) → (not (s == a) && not (s == b)) ≡ true → ¬ ((s ≡ a) ⊎ (s ≡ b))
kept_out s a b h (inl e) = ground (arith, h, e)
kept_out s a b h (inr e) = ground (arith, h, e)

module _ (md5_string : Bytes → Bytes) (rtbsecret : Bytes) (rtb_addr_allow : ℕ) where
  -- Of at least 37 bytes, from the address that is let in or the constant that stands for the
  -- loopback, and headed by the hash of the secret and what follows the hash.
  abbrev pub IsAuthentic : ℕ → Bytes → Type 0
  IsAuthentic source datagram =
      (37 ≤ length (take 1500 datagram))
      × ((source ≡ rtb_addr_allow) ⊎ (source ≡ 0x7f000001))
      × (take 32 (take 1500 datagram) ≡ md5_string (rtbsecret ++ drop 32 (take 1500 datagram)))

  -- The event that the three bytes behind the hash name runs with the rest exactly for an authentic
  -- datagram; any other datagram leaves the server as it was.
  pub rtb_callback-IsAuthentic :
      {J : Type 0} (j : Jansson J) (lua : Lua J) (source : ℕ) (datagram : Bytes) (m : Machine)
      → IsAuthentic source datagram
          × (rtb_callback j lua md5_string rtbsecret rtb_addr_allow source datagram m
              ≡ run_lua_rtb j lua
                  (take 3 (drop 32 (take 1500 datagram)))
                  (drop 3 (drop 32 (take 1500 datagram)))
                  m)
        ⊎ ¬ IsAuthentic source datagram
          × (rtb_callback j lua md5_string rtbsecret rtb_addr_allow source datagram m ≡ m)
  unfolding rtb_callback
  rtb_callback-IsAuthentic j lua source datagram m =
      let buffer = take 1500 datagram in
      let hash = md5_string (rtbsecret ++ drop 32 buffer) in
      elim (Bool-cases (ltb (length buffer) 37)) [
        | inl short ↦ rw short (inr (λ a. too_short _ short a.0, refl))
        | inr long ↦
            elim (Bool-cases (not (source == rtb_addr_allow) && not (source == 0x7f000001))) [
              | inl foreign ↦ rw long (
                  rw foreign
                    (inr (λ a. kept_out source rtb_addr_allow 0x7f000001 foreign a.1, refl)))
              | inr known ↦ elim (Bool-cases (eq_bytes (take 32 buffer) hash)) [
                | inl same ↦ rw long (
                    rw known (
                      rw same (
                        inl (
                          (
                            long_enough (length buffer) long,
                            let_in source rtb_addr_allow 0x7f000001 known,
                            (eq_bytes_iff (take 32 buffer) hash).0 same,
                          ),
                          refl,
                        ))))
                | inr other ↦ rw long (
                    rw known (
                      rw other (
                        inr (
                          λ a.
                              let no_match : false ≡ true =
                                sym other ∙ (eq_bytes_iff (take 32 buffer) hash).1 a.2 in
                              cc,
                          refl,
                        ))))
              ]
            ]
      ]
