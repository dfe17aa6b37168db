-- ===== src/NativeCommand/Search/Alike.antt =====
-- Heaps that a search does not tell apart.
use fserv.Prelude.{ℕ, ◌≡◌, refl, ap, sym, ◌∙◌, Bool-cases, inl, inr, [], arith, ◌==◌, ==_iff}
use fserv.Prelude.Bytes.{Bytes}
use fserv.Prelude.Maps.{bytes_eq, int_eq, nat_eq, same, same_iff, lookup-insert}
use fserv.Connection.{Connection, send}
use fserv.Rooms.{Heap, with_connection}
use fserv.NativeCommand.Search.{tag, touch}

-- A connection but for what a search may leave in it.
abbrev profile : Connection → Connection
profile con = record con { infotag_map = []; timers = [] }

-- The same connection, up to timers and infotags that are missing in one and empty in the other.
pub record IsLike (c d : Connection) : Type 0 where
  pub profiles : profile c ≡ profile d
  pub tags : (item : Bytes) → tag item c ≡ tag item d

-- The same channels, and connections that are alike.
abbrev pub AllLike : Heap → Heap → Type 0
AllLike g h = (g.channels ≡ h.channels) × ((c : ℕ) → IsLike (g.connections c) (h.connections c))

IsLike-trans : {a b c : Connection} → IsLike a b → IsLike b c → IsLike a c
IsLike-trans p q = record {
  profiles = p.profiles ∙ q.profiles;
  tags = λ item. p.tags item ∙ q.tags item;
}

IsLike-refl : (c : Connection) → IsLike c c
IsLike-refl c = record { profiles = refl; tags = λ item. refl }

pub touch-IsLike : (item : Bytes) (con : Connection) → IsLike (touch item con) con
touch-IsLike item con = record { profiles = refl; tags = same_tag }
  where
    same_tag : (i : Bytes) → tag i (touch item con) ≡ tag i con
    same_tag i =
        rw (lookup-insert item i (tag item con) con.infotag_map) (elim (Bool-cases (same item i)) [
          | inl e ↦ rw e (ap (λ x. tag x con) ((same_iff item i).0 e))
          | inr e ↦ rw e refl
        ])

pub with_connection-AllLike :
    (k : ℕ) (f : Connection → Connection) (h : Heap)
    → ((con : Connection) → IsLike (f con) con)
    → AllLike (with_connection k f h) h
with_connection-AllLike k f h like = (
  refl,
  λ c. elim (Bool-cases (k == c)) [
    | inl e ↦ rw e (IsLike-trans (like (h.connections k)) (same_con c ((==_iff k c).0 e)))
    | inr e ↦ rw e (IsLike-refl (h.connections c))
  ],
)
  where
    same_con : (c : ℕ) → k ≡ c → IsLike (h.connections k) (h.connections c)
    same_con c e = rw e (IsLike-refl (h.connections c))

pub send-IsLike :
    (message : Bytes) (c d : Connection) → IsLike c d → IsLike (send message c).0 (send message d).0
unfolding send
send-IsLike message c d like = record {
  profiles = rw (kept c, kept d) (ap (λ e. (send message e).0) like.profiles);
  tags = λ item. kept_tag c item ∙ like.tags item ∙ sym (kept_tag d item);
}
  where
    kept : (c : Connection) → profile (send message c).0 ≡ (send message (profile c)).0
    kept c = ground arith

    kept_tag : (c : Connection) (item : Bytes) → tag item (send message c).0 ≡ tag item c
    kept_tag c item = ground arith

pub AllLike-trans : (f g h : Heap) → AllLike f g → AllLike g h → AllLike f h
AllLike-trans f g h p q = (p.0 ∙ q.0, λ c. IsLike-trans (p.1 c) (q.1 c))

pub AllLike-refl : (h : Heap) → AllLike h h
AllLike-refl h = (refl, λ c. IsLike-refl (h.connections c))

pub with_connection_like :
    (k : ℕ) (f : Connection → Connection) (g h : Heap)
    → ((c d : Connection) → IsLike c d → IsLike (f c) (f d))
    → AllLike g h
    → AllLike (with_connection k f g) (with_connection k f h)
with_connection_like k f g h keeps like = (
  like.0,
  λ c. elim (Bool-cases (k == c)) [ inl e ↦ rw e (keeps _ _ (like.1 k)) | inr e ↦ rw e (like.1 c) ],
)
