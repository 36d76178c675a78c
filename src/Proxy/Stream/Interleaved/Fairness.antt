-- ===== src/Proxy/Stream/Interleaved/Fairness.antt =====
-- What round robin of umay/src/balance/selection.rs answers to the tasks of a proxy, in the order in
-- which they pick.
use mathlib.Core.Path.{subst}
use umay.Base.{
  ℕ, zero, suc, ◌+◌, ◌*◌, ◌%◌, ◌^◌, ◌<◌, ◌≡◌, ◌⊎◌, inl, inr, refl, ap, sym, ◌∙◌, List, [], ◌∷◌,
  ◌++◌, map, Bool, true, false, Option, none, some, ok, length, All, get_elem?, if◌then◌else◌,
}
use umay.App.Config.Listen.{Protocol}
use umay.Balance.Backend.{Backend}
use umay.Balance.LoadBalancer.{LoadBalancer, tick}
use umay.Balance.Selection.Random.{Rng}
use umay.Balance.Selection.RoundRobin
use umay.Balance.Selection.RoundRobin.{RoundRobin}
use umay.Balance.Selection.Rotation.{rotate, rounds}
use umay.Balance.Selection.Fairness.{picks, round_robin-rounds}
use umay.Balance.Selection.Selector
use umay.Balance.Selection.Selector.{Selector, round_robin-nil}
use umay.Balance.Discovery.Service.{Discovery, Lookup, discovery_service}
use umay.Balance.Discovery.Service
use umay.Tls.{Session}
use umay.Proxy.Stream.Connection.{Display, Network, Action}
use umay.Proxy.Stream.Interleaved.{
  Phase, arrived, shaken, loaded, chosen, relaying, ended, Task, Running, Event, refreshes, arrives,
  advances, waits, pick, move, advance, ticked, step,
}
use umay.Proxy.Stream.Interleaved.Ends.{At, IsHonest, serve_chosen-balancer}
use umay.Proxy.Stream.Interleaved.Runs.{IsSound, step-IsSound}

module _ {session : Session} {R : Type 0} where
  -- What a task picks by its next step, if that is the second half of `select`.
  abbrev pub picks_at :
      (net : Network session)
      → Phase session
      → LoadBalancer Selector (Discovery R)
      → List (Option Backend)
  picks_at net arrived lb = []
  picks_at net (shaken stream) lb = []
  picks_at net (loaded stream bs) lb = (pick net.rng bs lb).1 ∷ []
  picks_at net (chosen stream b) lb = []
  picks_at net relaying lb = []
  picks_at net (ended r) lb = []

  abbrev pub picks_of_task :
      Option (Task session) → LoadBalancer Selector (Discovery R) → List (Option Backend)
  picks_of_task none lb = []
  picks_of_task (some t) lb = picks_at t.net t.phase lb

  abbrev pub picked : Event session R → Running session R → List (Option Backend)
  picked (refreshes w) s = []
  picked (arrives net io) s = []
  picked (waits i) s = []
  picked (advances i) s = picks_of_task (get_elem? s.tasks i) s.balancer

-- The answers of all calls of `select` in a run, in the order in which they pick.
unfoldable pub answers :
    {session : Session}
    → Display
    → Protocol
    → {R : Type 0} → List (Event session R)
    → Running session R
    → List (Option Backend)
unfolding step
answers display p [] s = []
answers display p (e ∷ es) s = picked e s ++ answers display p es (step display p e s)

pick-round_robin :
    {D : Type 0} (rng : Rng) (bs : List Backend) (lb : LoadBalancer Selector D) (rr : RoundRobin)
    → lb.selection ≡ Selector.round_robin rr
    → let (rr', b) = RoundRobin.select rr bs in
      ((pick rng bs lb).1 ≡ b) × ((pick rng bs lb).0.selection ≡ Selector.round_robin rr')
unfolding pick Selector.select
pick-round_robin rng [] lb rr e = (
  sym (ap (λ (x : RoundRobin × Option Backend). x.1) (round_robin-nil rr)),
  e ∙ sym (ap (λ (x : RoundRobin × Option Backend). Selector.round_robin x.0) (round_robin-nil rr)),
)
pick-round_robin rng (b ∷ bs) lb rr e =
    (ap (λ s. (Selector.select rng s (b ∷ bs)).1) e, ap (λ s. (Selector.select rng s (b ∷ bs)).0) e)

-- Either nothing was picked and the counter stands, or the next backend was picked.
abbrev Turn :
    {D : Type 0}
    → List Backend
    → RoundRobin
    → List (Option Backend)
    → LoadBalancer Selector D
    → Type 0
Turn bs rr answered lb =
    let (rr', b) = RoundRobin.select rr bs in
    ((answered ≡ []) × (lb.selection ≡ Selector.round_robin rr))
    ⊎ ((answered ≡ b ∷ []) × (lb.selection ≡ Selector.round_robin rr'))

module _ {session : Session} (display : Display) (p : Protocol) {R : Type 0} (bs : List Backend)
    (rr : RoundRobin) where
  move-Turn :
      (net : Network session) (io : net.Io) (phase : Phase session) (asked : List Action)
      (lb : LoadBalancer Selector (Discovery R))
      → At display p (λ x. x ≡ bs) net io phase asked
      → lb.selection ≡ Selector.round_robin rr
      → Turn bs rr (picks_at net phase lb) (move display p net io phase lb).0
  unfolding move
  move-Turn net io arrived asked lb h e = inl (refl, e)
  move-Turn net io (shaken stream) asked lb h e = inl (refl, e)
  move-Turn net io (loaded stream set) asked lb h e =
      let (a, s) = pick-round_robin net.rng bs lb rr e in
      subst (λ x. Turn bs rr ((pick net.rng x lb).1 ∷ []) (pick net.rng x lb).0) (sym h.0)
        (inr (ap (λ b. b ∷ []) a, s))
  move-Turn net io (chosen stream b) asked lb h e = inl (
    refl,
    ap (λ (x : LoadBalancer Selector (Discovery R)). x.selection)
          (serve_chosen-balancer display net lb p stream b)
        ∙ e,
  )
  move-Turn net io relaying asked lb h e = inl (refl, e)
  move-Turn net io (ended r) asked lb h e = inl (refl, e)

  advance-Turn :
      (i : ℕ) (lb : LoadBalancer Selector (Discovery R)) (ts : List (Task session))
      → All (IsHonest display p (λ x. x ≡ bs)) ts
      → lb.selection ≡ Selector.round_robin rr
      → Turn bs rr (picks_of_task (get_elem? ts i) lb) (advance display p i lb ts).0
  unfolding advance
  advance-Turn i lb [] h e = inl (refl, e)
  advance-Turn zero lb (t ∷ ts) h e = move-Turn t.net t.io t.phase t.asked lb h.0 e
  advance-Turn (suc i) lb (t ∷ ts) h e = advance-Turn i lb ts h.1 e

  alive-selection :
      (alive : Bool) (w : Lookup R) (s : Running session R)
      → (if alive then ticked s (tick w s.balancer) else s).balancer.selection
        ≡ s.balancer.selection
  unfolding tick
  alive-selection true w s = refl
  alive-selection false w s = refl

  step-Turn :
      (e : Event session R) (s : Running session R)
      → All (IsHonest display p (λ x. x ≡ bs)) s.tasks
      → s.balancer.selection ≡ Selector.round_robin rr
      → Turn bs rr (picked e s) (step display p e s).balancer
  unfolding step
  step-Turn (refreshes w) s h e = inl (refl, alive-selection s.alive w s ∙ e)
  step-Turn (arrives net io) s h e = inl (refl, e)
  step-Turn (waits i) s h e = inl (refl, e)
  step-Turn (advances i) s h e = advance-Turn i s.balancer s.tasks h e

module _ {session : Session} (display : Display) (p : Protocol) {R : Type 0} (bs : List Backend)
    (d : Discovery R)
    (finds : (w : Lookup R) (xs : List Backend) → Service.discover w d ≡ ok xs → xs ≡ bs) where
  answers-picks :
      (es : List (Event session R)) (s : Running session R) (rr : RoundRobin)
      → IsSound display p (λ x. x ≡ bs) d finds 0 s
      → s.balancer.selection ≡ Selector.round_robin rr
      → answers display p es s
        ≡ picks (length (answers display p es s)) (λ t. RoundRobin.select t bs) rr
  unfolding answers picks
  answers-picks [] s rr h e = refl
  answers-picks (ev ∷ es) s rr h e =
      let next = step display p ev s in
      let rest = answers display p es next in
      let (rr', b) = RoundRobin.select rr bs in
      let sound = step-IsSound display p (λ x. x ≡ bs) d finds 0 ev s h in
      let goal = λ (xs : List (Option Backend)).
        xs ++ rest ≡ picks (length (xs ++ rest)) (λ t. RoundRobin.select t bs) rr in
      elim (step-Turn display p bs rr ev s h.tasks e) [
        | inl (none_picked, same) ↦
            subst goal (sym none_picked) (answers-picks es next rr sound same)
        | inr (one_picked, moved) ↦
            subst goal (sym one_picked) (ap (◌∷◌ b) (answers-picks es next rr' sound moved))
      ]

  -- Round robin is fair in every interleaving: where the set in use, and every set that a task has
  -- loaded, is all that the discovery can find, and the counter does not reach 2^64, `m` times as many
  -- picks as there are backends, of which there is one, go `m` times through all of them in order, from
  -- the one where the counter stands, whichever tasks make them and whatever comes between.
  pub answers-rounds :
      (m : ℕ) (es : List (Event session R)) (s : Running session R) (rr : RoundRobin)
      → IsSound display p (λ x. x ≡ bs) d finds 0 s
      → s.balancer.selection ≡ Selector.round_robin rr
      → 0 < length bs
      → rr.index + m * length bs < 2 ^ 64
      → length (answers display p es s) ≡ m * length bs
      → answers display p es s ≡ rounds m (map some (rotate (rr.index % length bs) bs))
  answers-rounds m es s rr h e pos room count =
      answers-picks es s rr h e
      ∙ ap (λ n. picks n (λ t. RoundRobin.select t bs) rr) count
      ∙ round_robin-rounds m rr bs pos room
