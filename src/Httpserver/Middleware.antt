-- ===== src/Httpserver/Middleware.antt =====
-- What the middleware of warmkit/engine.go leaves and answers of the server inside of it, which is
-- any handler.
use itmo_master_research.Base.{
  ℤ, String, ◌==◌, ◌≡◌, sym, ◌∙◌, inl, inr, not, Bool-cases, Option-cases, Option, false,
}
use itmo_master_research.Warmkit.Metrics.{record_latency}
use itmo_master_research.Warmkit.Registry.{Registry}
use itmo_master_research.Warmkit.Engine.{
  Engine, Request, Response, is_shadow_request, begin_warming, shadow_middleware,
}

-- What the middleware does to the rest of the server, `W`, is done by its handler.
pub middleware_rest :
    {R W : Type 0} (registry : Registry R) (P : W → Type 0)
    (next : Engine R → W → Engine R × W × Option Response) (e : Engine R) (w : W) (r : Request)
    (d : ℤ)
    → P w
    → ((x : Engine R) → P (next x w).1)
    → P (shadow_middleware registry next e w r d).1
unfolding shadow_middleware
middleware_rest registry P next e w r d p keeps = elim (Bool-cases (not (is_shadow_request r))) [
  | inl plain ↦ rw plain (keeps e)
  | inr shadow ↦ rw shadow (elim (Bool-cases (not (r.method == "GET"))) [
    | inl other_method ↦ rw other_method p
    | inr get ↦
        let begun = begin_warming registry e in
        rw get (elim (Option-cases (next begun w).2) [
          | inl panicked ↦ rw panicked (keeps begun)
          | inr (a, fine) ↦ rw fine (keeps begun)
        ])
  ])
]

-- What is left of the rest of the server by a GET request is what the handler leaves, and so is the
-- answer where `Record` does not panic on the engine that the handler leaves.
pub middleware_get :
    {R W : Type 0} (registry : Registry R) (next : Engine R → W → Engine R × W × Option Response)
    (e : Engine R) (w w' : W) (header : String) (d : ℤ) (answer : Option Response)
    → ((x : Engine R) → ((next x w).1 ≡ w') × ((next x w).2 ≡ answer))
    → let got =
        shadow_middleware registry next e w (record { method = "GET"; shadow_header = header }) d in
      (got.1 ≡ w')
      × ((record_latency (next (begin_warming registry e) w).0.shadow d).1 ≡ false → got.2 ≡ answer)
unfolding shadow_middleware is_shadow_request
middleware_get registry next e w w' header d answer h = elim (Bool-cases (not (header == "1"))) [
  | inl plain ↦ rw plain ((h e).0, λ _. (h e).1)
  | inr shadow ↦
      let begun = begin_warming registry e in
      let (rest, same) = h begun in
      rw shadow (elim (Option-cases (next begun w).2) [
        | inl panicked ↦ rw panicked (rest, λ _. sym panicked ∙ same)
        | inr (a, fine) ↦ rw fine (rest, λ kept. rw kept (sym fine ∙ same))
      ])
]
