-- ===== src/Proxy/Stream/Tcp.antt =====
-- `proxy_tcp` of umay/src/proxy/stream.rs: two copies, of which the first to end ends the other. The
-- copying itself is the crate `tokio`'s: a copy reads bytes from its reader into a buffer and writes
-- them from there to its writer. An event says what happened at one side.
use umay.Base.{
  ℕ, zero, suc, ◌+◌, ◌-◌, ◌≡◌, refl, ap, ◌∙◌, List, [], ◌∷◌, ◌++◌, Option, Outcome, ok, Error,
  length, take, drop, length-append, arith,
}
use mathlib.Core.List.{append_assoc}
use umay.App.Config.Tls.{Bytes}
use umay.Tls.Server.{Poll, pending, ready}

-- The sides of the session that `proxy_tcp` is called with.
pub data Side : Type 0 where
  client server : Side

-- Bytes read from a side, how many bytes a side's writer took, and the end of the copy that reads from
-- a side, with its error if it failed.
pub data CopyEvent : Type 0 where
  reads : Side → Bytes → CopyEvent
  writes : Side → ℕ → CopyEvent
  done : Side → Option Error → CopyEvent

-- What each side was given, and whether the call has returned.
pub record Relayed : Type 0 where
  pub server : Bytes
  pub client : Bytes
  pub result : Poll (Outcome (Unit {0}))

-- The buffers of `client_to_server` and `server_to_client`.
pub record Buffers : Type 0 where
  pub to_server : Bytes
  pub to_client : Bytes

abbrev pub give_server : Bytes → Relayed → Relayed
give_server bs r = record r { server = bs ++ r.server }

abbrev pub give_client : Bytes → Relayed → Relayed
give_client bs r = record r { client = bs ++ r.client }

-- The two copies under way. An error of a copy is logged, and the call returns `Ok(())` all the same.
unfoldable pub copy_both : Buffers → List CopyEvent → Relayed
copy_both b [] = record { server = []; client = []; result = pending }
copy_both b (reads client bs ∷ events) =
    copy_both (record b { to_server = b.to_server ++ bs }) events
copy_both b (reads server bs ∷ events) =
    copy_both (record b { to_client = b.to_client ++ bs }) events
copy_both b (writes server n ∷ events) =
    give_server (take n b.to_server)
      (copy_both (record b { to_server = drop n b.to_server }) events)
copy_both b (writes client n ∷ events) =
    give_client (take n b.to_client)
      (copy_both (record b { to_client = drop n b.to_client }) events)
copy_both b (done side e ∷ events) = record { server = []; client = []; result = ready (ok tt) }

unfoldable pub proxy_tcp : List CopyEvent → Relayed
unfolding copy_both
proxy_tcp events = copy_both (record { to_server = []; to_client = [] }) events

abbrev pub IsData : CopyEvent → Type 0
IsData (reads side bs) = Unit
IsData (writes side n) = Unit
IsData (done side e) = ⊥

abbrev pub AllData : List CopyEvent → Type 0
AllData [] = Unit
AllData (e ∷ events) = IsData e × AllData events

-- The bytes that a side sent, in order.
abbrev pub sent : Side → List CopyEvent → Bytes
sent side [] = []
sent client (reads client bs ∷ events) = bs ++ sent client events
sent client (reads server bs ∷ events) = sent client events
sent server (reads client bs ∷ events) = sent server events
sent server (reads server bs ∷ events) = bs ++ sent server events
sent side (writes to n ∷ events) = sent side events
sent side (done from e ∷ events) = []

-- How many bytes a side's writer has taken, where `k` are at hand to begin with: it takes no more than
-- were read from the other side.
abbrev pub taken : Side → ℕ → List CopyEvent → ℕ
taken side k [] = 0
taken server k (reads client bs ∷ events) = taken server (k + length bs) events
taken server k (reads server bs ∷ events) = taken server k events
taken client k (reads client bs ∷ events) = taken client k events
taken client k (reads server bs ∷ events) = taken client (k + length bs) events
taken server k (writes server n ∷ events) = (k - (k - n)) + taken server (k - n) events
taken server k (writes client n ∷ events) = taken server k events
taken client k (writes server n ∷ events) = taken client k events
taken client k (writes client n ∷ events) = (k - (k - n)) + taken client (k - n) events
taken side k (done from e ∷ events) = 0

length-drop : (n : ℕ) (bs : Bytes) → length (drop n bs) ≡ length bs - n
length-drop zero bs = omega arith
length-drop (suc n) [] = omega arith
length-drop (suc n) (b ∷ bs) = omega (arith, length-drop n bs)

-- What a write takes off the buffer, and what the later ones take.
take_split :
    (n m : ℕ) (bs later : Bytes)
    → take n bs ++ take m (drop n bs ++ later)
      ≡ take ((length bs - (length bs - n)) + m) (bs ++ later)
take_split zero m bs later = ap (λ k. take k (bs ++ later)) (omega arith)
take_split (suc n) m [] later = ap (λ k. take k later) (omega arith)
take_split (suc n) m (b ∷ bs) later =
    let same : suc ((length bs - (length bs - n)) + m)
        ≡ (suc (length bs) - (suc (length bs) - suc n)) + m =
      omega arith in
    ap (◌∷◌ b) (take_split n m bs later) ∙ ap (λ k. take k (b ∷ (bs ++ later))) same

-- A buffer that has grown by what was read, and one that a write has shortened.
read_more :
    (f : ℕ → ℕ) (bs new later : Bytes)
    → take (f (length (bs ++ new))) ((bs ++ new) ++ later)
      ≡ take (f (length bs + length new)) (bs ++ (new ++ later))
read_more f bs new later =
    ap (λ k. take (f k) ((bs ++ new) ++ later)) (length-append bs new)
    ∙ ap (take (f (length bs + length new))) (append_assoc bs new later)

write_some :
    (f : ℕ → ℕ) (n : ℕ) (bs later : Bytes)
    → take n bs ++ take (f (length (drop n bs))) (drop n bs ++ later)
      ≡ take ((length bs - (length bs - n)) + f (length bs - n)) (bs ++ later)
write_some f n bs later =
    ap (λ k. take n bs ++ take (f k) (drop n bs ++ later)) (length-drop n bs)
    ∙ take_split n (f (length bs - n)) bs later

module _ (from : Side) (e : Option Error) (rest : List CopyEvent) where
  copy_both-server :
      (events : List CopyEvent) (b : Buffers)
      → AllData events
      → (copy_both b (events ++ done from e ∷ rest)).server
        ≡ take (taken server (length b.to_server) events) (b.to_server ++ sent client events)
  unfolding copy_both
  copy_both-server [] b h = refl
  copy_both-server (reads client bs ∷ events) b h =
      copy_both-server events _ h.1
      ∙ read_more (λ k. taken server k events) b.to_server bs (sent client events)
  copy_both-server (reads server bs ∷ events) b h = copy_both-server events _ h.1
  copy_both-server (writes server n ∷ events) b h =
      ap (◌++◌ (take n b.to_server)) (copy_both-server events _ h.1)
      ∙ write_some (λ k. taken server k events) n b.to_server (sent client events)
  copy_both-server (writes client n ∷ events) b h = copy_both-server events _ h.1
  copy_both-server (done s x ∷ events) b h = absurd h.0

  copy_both-client :
      (events : List CopyEvent) (b : Buffers)
      → AllData events
      → (copy_both b (events ++ done from e ∷ rest)).client
        ≡ take (taken client (length b.to_client) events) (b.to_client ++ sent server events)
  unfolding copy_both
  copy_both-client [] b h = refl
  copy_both-client (reads client bs ∷ events) b h = copy_both-client events _ h.1
  copy_both-client (reads server bs ∷ events) b h =
      copy_both-client events _ h.1
      ∙ read_more (λ k. taken client k events) b.to_client bs (sent server events)
  copy_both-client (writes server n ∷ events) b h = copy_both-client events _ h.1
  copy_both-client (writes client n ∷ events) b h =
      ap (◌++◌ (take n b.to_client)) (copy_both-client events _ h.1)
      ∙ write_some (λ k. taken client k events) n b.to_client (sent server events)
  copy_both-client (done s x ∷ events) b h = absurd h.0

  copy_both-result :
      (events : List CopyEvent) (b : Buffers)
      → AllData events
      → (copy_both b (events ++ done from e ∷ rest)).result ≡ ready (ok tt)
  unfolding copy_both
  copy_both-result [] b h = refl
  copy_both-result (reads client bs ∷ events) b h = copy_both-result events _ h.1
  copy_both-result (reads server bs ∷ events) b h = copy_both-result events _ h.1
  copy_both-result (writes server n ∷ events) b h = copy_both-result events _ h.1
  copy_both-result (writes client n ∷ events) b h = copy_both-result events _ h.1
  copy_both-result (done s x ∷ events) b h = absurd h.0

  -- When the first of the two copies ends, with an error or without, the call returns `Ok(())`, and
  -- whatever happens after that reaches neither side. Until then the directions may interleave in any
  -- way: each side has been given, in order, the first bytes of those that the other sent, as many as
  -- its writer took; what was read and not yet written is lost.
  pub proxy_tcp-end :
      (events : List CopyEvent)
      → AllData events
      → let r = proxy_tcp (events ++ done from e ∷ rest) in
        (r.server ≡ take (taken server 0 events) (sent client events))
        × (r.client ≡ take (taken client 0 events) (sent server events))
        × (r.result ≡ ready (ok tt))
  unfolding proxy_tcp
  proxy_tcp-end events h = (
    copy_both-server events (record { to_server = []; to_client = [] }) h,
    copy_both-client events (record { to_server = []; to_client = [] }) h,
    copy_both-result events (record { to_server = []; to_client = [] }) h,
  )
