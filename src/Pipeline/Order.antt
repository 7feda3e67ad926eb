-- ===== src/Pipeline/Order.antt =====
-- Middlewares run in the order in which they were added, and what one establishes stays when the
-- later ones keep it.
use cpp_design_patterns.Prelude.{
  ◌≡◌, refl, sym, ap, ◌∙◌, List, [], ◌∷◌, ◌++◌, append_assoc, append-nil, true, All,
}
use cpp_design_patterns.Log.{Log}
use cpp_design_patterns.Pipeline.{
  RequestContext, Middleware, MiddlewarePipeline, new_pipeline, RequireAuthentication, add,
  run_chain, run,
}

-- Additions in order.
abbrev pub add_all : List Middleware → MiddlewarePipeline → MiddlewarePipeline
add_all [] p = p
add_all (m ∷ ms) p = add_all ms (add m p)

add_all-chain :
    (ms : List Middleware) (p : MiddlewarePipeline) → (add_all ms p).chain_ ≡ p.chain_ ++ ms
unfolding add
add_all-chain [] p = sym (append-nil p.chain_)
add_all-chain (m ∷ ms) p = add_all-chain ms (add m p) ∙ append_assoc p.chain_ (m ∷ []) ms

-- A middleware that does not undo the authentication.
abbrev pub KeepsAuthentication : Middleware → Type 0
KeepsAuthentication m =
    (s : RequestContext × Log) → s.0.authenticated ≡ true → (m s).0.authenticated ≡ true

chain_keeps :
    (ms : List Middleware) (s : RequestContext × Log)
    → All KeepsAuthentication ms
    → s.0.authenticated ≡ true
    → (run_chain ms s).0.authenticated ≡ true
chain_keeps [] s ks h = h
chain_keeps (m ∷ ms) s (k, ks) h = chain_keeps ms (m s) ks (k s h)

chain-append :
    (ms ns : List Middleware) (s : RequestContext × Log)
    → run_chain (ms ++ ns) s ≡ run_chain ns (run_chain ms s)
chain-append [] ns s = refl
chain-append (m ∷ ms) ns s = chain-append ms ns (m s)

-- Whatever middlewares are added to a new pipeline before and after `RequireAuthentication`: it
-- runs the ones before it in order, then it, then the ones after it in order; and when the ones
-- after it keep an authenticated context so, the context is authenticated at the end.
pub pipeline_order :
    (before after : List Middleware) (s : RequestContext × Log)
    → All KeepsAuthentication after
    → let p = add_all (before ++ (RequireAuthentication ∷ after)) new_pipeline in
      (run p s ≡ run_chain after (RequireAuthentication (run_chain before s)))
      × ((run p s).0.authenticated ≡ true)
unfolding run RequireAuthentication
pipeline_order before after s ks =
    let p = add_all (before ++ (RequireAuthentication ∷ after)) new_pipeline in
    let whole : run p s ≡ run_chain after (RequireAuthentication (run_chain before s)) =
      ap (λ ms. run_chain ms s)
        (add_all-chain (before ++ (RequireAuthentication ∷ after)) new_pipeline)
      ∙ chain-append before (RequireAuthentication ∷ after) s in
    (
      whole,
      ap (λ x. x.0.authenticated) whole
          ∙ chain_keeps after (RequireAuthentication (run_chain before s)) ks refl,
    )
