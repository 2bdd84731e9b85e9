-- ===== src/Warmkit/Engine/Calls.antt =====
-- Every history of calls of the engine (warmkit/engine.go): readiness is earned.
use itmo_master_research.Base.{
  Option, none, some, ℕ, ◌+◌, ◌≤◌, ◌<◌, ℤ, pos, pos_part, neg_part, ◌≤ℤ◌, add64-inc, two63, ◌≡◌,
  subst, ◌∙◌, ◌≢◌, ◌⊎◌, inl, Bool, List, [], ◌∷◌, length, arith,
}
use itmo_master_research.Warmkit.Types.{State, warming, ready, active, failed, MirrorConfig}
use itmo_master_research.Warmkit.Fsm.{transition}
use itmo_master_research.Warmkit.Metrics.{record_latency}
use itmo_master_research.Warmkit.Metrics.Window.{record_latency-count}
use itmo_master_research.Warmkit.Registry.{Registry}
use itmo_master_research.Warmkit.Engine.{
  Engine, Config, Request, Response, new_engine, advance, after_next, start, watch_failed,
  handle_mirror_config, timeout, reset_benchmark, shadow_middleware,
}
use itmo_master_research.Warmkit.Engine.Rules.{
  begin_warming_rule, after_next_rule, shadow_middleware_rule, timeout_rule,
  handle_mirror_config_rule,
}

-- What the world can do to an engine: the service calls `Start`, the watch goroutine gets a
-- configuration, its timer or its failure, and the HTTP server gets requests.
-- How the handler of a request ends: it returns after so many nanoseconds, or it panics.
pub data Run : Type 0 where
  returns : ℤ → Run
  panics : Run

pub data Call (F : Type 0) : Type 0 where
  starts : ℤ → Call F
  configures : MirrorConfig F → Call F
  times_out : Call F
  watch_fails : Call F
  resets : Call F
  serves : Request → Run → Call F

-- What the middleware sees of a run of the handler.
abbrev pub answer_of : Run → Option Response
answer_of (returns d) = some (record { status = 200; body = "" })
answer_of panics = none

abbrev pub time_of : Run → ℤ
time_of (returns d) = d
time_of panics = pos 0

module _ {R : Type 0} (registry : Registry R) {F : Type 0} (positive : F → Bool) where
  abbrev pub serve : Engine R → Request → Run → Engine R
  serve e r run =
      (shadow_middleware registry {W = Unit {0}} (λ e w. (e, w, answer_of run)) e tt r
        (time_of run)).0

  unfoldable pub call : Engine R → Call F → Engine R
  call e (starts now) = (start registry e now).0
  call e (configures cfg) = handle_mirror_config registry positive e cfg
  call e times_out = timeout registry e
  call e watch_fails = watch_failed registry e
  call e resets = (reset_benchmark registry e).0
  call e (serves r run) = serve e r run

  unfoldable pub calls : Engine R → List (Call F) → Engine R
  calls e [] = e
  calls e (c ∷ cs) = calls (call e c) cs

-- The counter has counted at most `n` requests, and an engine that reports itself ready or active
-- has counted as many as its configuration asks for.
pub record IsEarned {R : Type 0} (n : ℕ) (e : Engine R) : Type 0 where
  pub bounded : pos_part e.shadow.count ≤ n
  pub nonneg : neg_part e.shadow.count ≡ 0
  pub earned : (e.fsm.state ≡ ready) ⊎ (e.fsm.state ≡ active) → e.cfg.ready_after ≤ℤ e.shadow.count

module _ {R : Type 0} (registry : Registry R) where
  advance-IsEarned :
      (n : ℕ) (e : Engine R) (s : State)
      → IsEarned n e
      → ((s ≡ ready) ⊎ (s ≡ active) → e.cfg.ready_after ≤ℤ e.shadow.count)
      → IsEarned n (advance registry e s)
  unfolding advance transition
  advance-IsEarned n e s i h = ground arith

  record-IsEarned :
      (n : ℕ) (e : Engine R) (d : ℤ)
      → n + 1 < two63
      → IsEarned n e
      → IsEarned (n + 1) (record e { shadow = (record_latency e.shadow d).0 })
  record-IsEarned n e d h i =
      let (counted, _) = record_latency-count e.shadow d in
      let next : (record_latency e.shadow d).0.count ≡ pos (pos_part e.shadow.count + 1) =
        counted ∙ add64-inc e.shadow.count i.nonneg (omega (arith, i.bounded)) in
      ground (arith, next)

  later-IsEarned : (n : ℕ) (e : Engine R) → IsEarned n e → IsEarned (n + 1) e
  later-IsEarned n e i = ground arith

  ready-IsEarned :
      (n : ℕ) (e : Engine R)
      → IsEarned n e
      → e.cfg.ready_after ≤ℤ e.shadow.count
      → e.fsm.state ≡ warming
      → IsEarned n (advance registry e ready)
  ready-IsEarned n e i enough warm = advance-IsEarned n e ready i (λ _. enough)

  -- A move to a state that needs nothing.
  cold-IsEarned :
      (n : ℕ) (e : Engine R) (s : State)
      → s ≢ ready
      → s ≢ active
      → IsEarned n e
      → IsEarned n (advance registry e s)
  cold-IsEarned n e s r a i = advance-IsEarned n e s i (λ h. ground arith)

  start-IsEarned :
      (n : ℕ) (e : Engine R) (now : ℤ) → IsEarned n e → IsEarned n (start registry e now).0
  unfolding start transition
  start-IsEarned n e now i = ground arith

  watch_failed-IsEarned :
      (n : ℕ) (e : Engine R) → IsEarned n e → IsEarned n (watch_failed registry e)
  unfolding watch_failed transition
  watch_failed-IsEarned n e i = ground arith

  reset_benchmark-IsEarned :
      (n : ℕ) (e : Engine R) → IsEarned n e → IsEarned n (reset_benchmark registry e).0
  unfolding reset_benchmark
  reset_benchmark-IsEarned n e i = ground arith

  after_next-IsEarned :
      (n : ℕ) (e : Engine R) (d : ℤ)
      → n + 1 < two63
      → IsEarned n e
      → IsEarned (n + 1) (after_next registry e d)
  after_next-IsEarned n e d h i =
      let counted = record-IsEarned n e d h i in
      after_next_rule registry (IsEarned (n + 1)) e d (
        counted,
        ready-IsEarned (n + 1) (record e { shadow = (record_latency e.shadow d).0 }) counted,
      )

  module _ {F : Type 0} (positive : F → Bool) where
    pub call-IsEarned :
        (n : ℕ) (e : Engine R) (c : Call F)
        → n + 1 < two63
        → IsEarned n e
        → IsEarned (n + 1) (call registry positive e c)
    unfolding call
    call-IsEarned n e (starts now) h i =
        later-IsEarned n (start registry e now).0 (start-IsEarned n e now i)
    call-IsEarned n e (configures cfg) h i =
        handle_mirror_config_rule registry (IsEarned (n + 1)) positive cfg e (later-IsEarned n e i)
          (λ d j _. cold-IsEarned (n + 1) d warming (λ x. cc) (λ x. cc) j)
          (λ d j at. advance-IsEarned (n + 1) d active j (λ _. j.earned (inl at)))
          (λ d j. ready-IsEarned (n + 1) d j)
    call-IsEarned n e times_out h i =
        timeout_rule registry (IsEarned (n + 1)) e (later-IsEarned n e i) λ _ _.
          let down = cold-IsEarned (n + 1) e failed (λ x. cc) (λ x. cc) (later-IsEarned n e i) in
          record { bounded = down.bounded; nonneg = down.nonneg; earned = down.earned }
    call-IsEarned n e watch_fails h i =
        later-IsEarned n (watch_failed registry e) (watch_failed-IsEarned n e i)
    call-IsEarned n e resets h i =
        later-IsEarned n (reset_benchmark registry e).0 (reset_benchmark-IsEarned n e i)
    call-IsEarned n e (serves r run) h i =
        shadow_middleware_rule registry (IsEarned n) (IsEarned (n + 1)) _ e tt r (time_of run) i
          (begin_warming_rule registry (IsEarned n) e i
            (λ _. cold-IsEarned n e warming (λ x. cc) (λ x. cc) i))
          (λ _ j. j) (later-IsEarned n) (λ x j. after_next-IsEarned n x (time_of run) h j)

    pub new_engine-IsEarned :
        (n : ℕ) (cfg : Config) (reg : R) → IsEarned n (new_engine registry cfg reg)
    unfolding new_engine
    new_engine-IsEarned n cfg reg = ground arith

    calls-IsEarned :
        (n : ℕ) (e : Engine R) (cs : List (Call F))
        → n + length cs < two63
        → IsEarned n e
        → IsEarned (n + length cs) (calls registry positive e cs)
    unfolding calls
    calls-IsEarned n e [] h i =
        let same : n ≡ n + 0 = omega arith in subst (λ k. IsEarned k e) same i
    calls-IsEarned n e (c ∷ cs) h i =
        let same : n + 1 + length cs ≡ n + length (c ∷ cs) = omega arith in
        subst (λ k. IsEarned k (calls registry positive (call registry positive e c) cs)) same
          (calls-IsEarned (n + 1) (call registry positive e c) cs (omega arith)
            (call-IsEarned n e c (omega arith) i))

    -- After any history of fewer than 2^63 calls of a new engine, in any order, an engine in state
    -- `Ready` or `Active` has a shadow counter of at least `ReadyAfter`.
    pub calls-earned :
        (cfg : Config) (reg : R) (cs : List (Call F))
        → length cs < two63
        → ((calls registry positive (new_engine registry cfg reg) cs).fsm.state ≡ ready)
          ⊎ ((calls registry positive (new_engine registry cfg reg) cs).fsm.state ≡ active)
        → (calls registry positive (new_engine registry cfg reg) cs).cfg.ready_after
          ≤ℤ (calls registry positive (new_engine registry cfg reg) cs).shadow.count
    unfolding new_engine
    calls-earned cfg reg cs h =
        (calls-IsEarned 0 (new_engine registry cfg reg) cs (omega arith) (ground arith)).earned
