-- ===== src/Warmkit/Engine/Warmup.antt =====
-- Enough shadow traffic makes an engine ready (warmkit/engine.go).
use itmo_master_research.Base.{
  ℕ, suc, ◌+◌, ◌<◌, ℤ, pos, add64, add64-pos, two63, ◌≡◌, refl, sym, subst, ap, ◌∙◌, ◌⊎◌, inr, List,
  [], ◌∷◌, length, arith, true,
}
use itmo_master_research.Warmkit.Types.{registered, warming, ready, state_eq}
use itmo_master_research.Warmkit.Fsm.{transition}
use itmo_master_research.Warmkit.Metrics.{ShadowMetrics, record_latency}
use itmo_master_research.Warmkit.Metrics.Window.{record_latency-count, record_latency_ok}
use itmo_master_research.Warmkit.Registry.{Registry}
use itmo_master_research.Warmkit.Engine.{
  Engine, Config, Request, advance, check_ready, begin_warming, after_next, is_shadow_request,
  shadow_middleware, readiness,
}
use itmo_master_research.Warmkit.Engine.Calls.{returns, serve}

-- A mirrored request, as the proxy sends it.
abbrev pub shadow_get : Request
shadow_get = record { method = "GET"; shadow_header = "1" }

shift : (c n : ℕ) → c + suc (suc n) ≡ c + 1 + suc n
shift c n = omega arith

module _ {R : Type 0} (registry : Registry R) where
  unfoldable pub serve_all : Engine R → List ℤ → Engine R
  serve_all e [] = e
  serve_all e (d ∷ ds) = serve_all (serve registry {F = ℕ} (λ _. true) e shadow_get (returns d)) ds

  -- A warming engine that has counted `c` of the `c + n` requests it waits for.
  pub record IsWaiting (k c n : ℕ) (e : Engine R) : Type 0 where
    pub counted : e.shadow.count ≡ pos c
    pub kept : e.shadow.max_keep ≡ pos k
    pub target : e.cfg.ready_after ≡ pos (c + n)
    pub open_state : (e.fsm.state ≡ registered) ⊎ (e.fsm.state ≡ warming)

  pub serve-shadow_get :
      (e : Engine R) (d : ℤ)
      → serve registry {F = ℕ} (λ _. true) e shadow_get (returns d)
        ≡ after_next registry (begin_warming registry e) d
  unfolding shadow_middleware is_shadow_request
  serve-shadow_get e d = refl

  begin_warming_lem :
      (e : Engine R)
      → (e.fsm.state ≡ registered) ⊎ (e.fsm.state ≡ warming)
      → (begin_warming registry e).fsm.state ≡ warming
  unfolding begin_warming transition state_eq
  begin_warming_lem e h = ground arith

  begin_warming_keeps :
      (e : Engine R)
      → ((begin_warming registry e).shadow ≡ e.shadow) × ((begin_warming registry e).cfg ≡ e.cfg)
  unfolding begin_warming
  begin_warming_keeps e = ground arith

  readiness-ready : (e : Engine R) → e.fsm.state ≡ ready → (readiness registry e).status ≡ 200
  unfolding readiness state_eq
  readiness-ready e at = ground arith

  record-counted :
      (c : ℕ) (m : ShadowMetrics) (d : ℤ)
      → c + 1 < two63
      → m.count ≡ pos c
      → (record_latency m d).0.count ≡ pos (c + 1)
  record-counted c m d h e =
      (record_latency-count m d).0 ∙ ap (λ z. add64 z (pos 1)) e ∙ add64-pos c 1 h

  -- Where `check_ready` finds too few requests, or enough.
  check_ready-early :
      (e : Engine R) (c t : ℕ)
      → e.shadow.count ≡ pos c
      → e.cfg.ready_after ≡ pos t
      → c < t
      → check_ready registry e ≡ e
  unfolding check_ready
  check_ready-early e c t p q h = ground (arith, p, q)

  check_ready-last :
      (e : Engine R) (c : ℕ)
      → e.shadow.count ≡ pos c
      → e.cfg.ready_after ≡ pos c
      → e.fsm.state ≡ warming
      → (check_ready registry e).fsm.state ≡ ready
  unfolding check_ready advance transition state_eq
  check_ready-last e c p q at = ground (arith, p, q)

  after_next-checks :
      (k : ℕ) (e : Engine R) (d : ℤ)
      → e.shadow.max_keep ≡ pos k
      → after_next registry e d
        ≡ check_ready registry (record e { shadow = (record_latency e.shadow d).0 })
  unfolding after_next
  after_next-checks k e d h = rw (record_latency_ok e.shadow d k h)

  warmed-IsWaiting :
      (k c n : ℕ) (e : Engine R) → IsWaiting k c n e → IsWaiting k c n (begin_warming registry e)
  warmed-IsWaiting k c n e w =
      let (s, g) = begin_warming_keeps e in
      record {
        counted = ap (λ (m : ShadowMetrics). m.count) s ∙ w.counted;
        kept = ap (λ (m : ShadowMetrics). m.max_keep) s ∙ w.kept;
        target = ap (λ (x : Config). x.ready_after) g ∙ w.target;
        open_state = inr (begin_warming_lem e w.open_state);
      }

  pub serve-early :
      (k c n : ℕ) (e : Engine R) (d : ℤ)
      → c + 1 < two63
      → IsWaiting k c (suc (suc n)) e
      → IsWaiting k (c + 1) (suc n) (serve registry {F = ℕ} (λ _. true) e shadow_get (returns d))
  serve-early k c n e d h w =
      let e' = begin_warming registry e in
      let v = warmed-IsWaiting k c (suc (suc n)) e w in
      let grown : Engine R = record e' { shadow = (record_latency e'.shadow d).0 } in
      let count = record-counted c e'.shadow d h v.counted in
      let stays : serve registry {F = ℕ} (λ _. true) e shadow_get (returns d) ≡ grown =
        serve-shadow_get e d
        ∙ after_next-checks k e' d v.kept
        ∙ check_ready-early grown (c + 1) (c + suc (suc n)) count v.target (omega arith) in
      subst (IsWaiting k (c + 1) (suc n)) (sym stays) (record {
        counted = count;
        kept = (record_latency-count e'.shadow d).1 ∙ v.kept;
        target = v.target ∙ ap pos (shift c n);
        open_state = inr (begin_warming_lem e w.open_state);
      })

  pub serve-last :
      (k c : ℕ) (e : Engine R) (d : ℤ)
      → c + 1 < two63
      → IsWaiting k c 1 e
      → (serve registry {F = ℕ} (λ _. true) e shadow_get (returns d)).fsm.state ≡ ready
  serve-last k c e d h w =
      let e' = begin_warming registry e in
      let v = warmed-IsWaiting k c 1 e w in
      let grown : Engine R = record e' { shadow = (record_latency e'.shadow d).0 } in
      let runs : serve registry {F = ℕ} (λ _. true) e shadow_get (returns d)
          ≡ check_ready registry grown =
        serve-shadow_get e d ∙ after_next-checks k e' d v.kept in
      ap (λ (x : Engine R). x.fsm.state) runs
      ∙ check_ready-last grown (c + 1) (record-counted c e'.shadow d h v.counted) v.target
          (begin_warming_lem e w.open_state)

  -- A registered or warming engine with a counter of `c`, a target of `c` and the number of the
  -- requests, a window of a size that is not negative, and a counter that does not overflow is
  -- ready after exactly these mirrored GET requests, whatever times they take; its readiness probe
  -- then answers 200.
  pub serve_all-ready :
      (k c : ℕ) (d : ℤ) (ds : List ℤ) (e : Engine R)
      → c + length (d ∷ ds) < two63
      → IsWaiting k c (length (d ∷ ds)) e
      → ((serve_all e (d ∷ ds)).fsm.state ≡ ready)
        × ((readiness registry (serve_all e (d ∷ ds))).status ≡ 200)
  unfolding serve_all
  serve_all-ready k c d [] e h w =
      let at = serve-last k c e d (omega arith) w in (at, readiness-ready _ at)
  serve_all-ready k c d (d2 ∷ ds) e h w =
      serve_all-ready k (c + 1) d2 ds (serve registry {F = ℕ} (λ _. true) e shadow_get (returns d))
        (omega arith) (serve-early k c (length ds) e d (omega arith) w)
