-- ===== src/Interceptors.antt =====
-- include/temporal/interceptor/interceptor.h: how the factories of interceptors build a chain. The
-- three chains (BuildWorkflowInboundChain, BuildActivityInboundChain, BuildClientOutboundChain) have
-- the same body over another type of interceptor, `I` here; a factory gives none for nullptr.
pub mod Order
pub mod Tracing
use temporal_cpp.Prelude.{Option, none, some, List, [], ◌∷◌, ◌++◌}

-- An InterceptorChain: `head_`, and the wrappers in `owned_`.
pub record InterceptorChain {ℓ} (I : Type ℓ) : Type ℓ where
  pub head : I
  pub owned : List I

-- One round of the loop, on what `InterceptX(next)` gives.
unfoldable pub wrap {ℓ} : {I : Type ℓ} → Option I → InterceptorChain I → InterceptorChain I
wrap none chain = chain
wrap (some wrapper) chain = record { head = wrapper; owned = chain.owned ++ wrapper ∷ [] }

-- The loop, over the factories in the order in which it visits them.
unfoldable pub wrap_each {ℓ} :
    {I : Type ℓ} → List (I → Option I) → InterceptorChain I → InterceptorChain I
unfolding wrap
wrap_each [] chain = chain
wrap_each (factory ∷ factories) chain = wrap_each factories (wrap (factory chain.head) chain)

abbrev pub reverse {ℓ} : {A : Type ℓ} → List A → List A
reverse [] = []
reverse (a ∷ as') = reverse as' ++ a ∷ []

-- From the back of the factories to the front.
unfoldable pub build_chain {ℓ} : {I : Type ℓ} → List (I → Option I) → I → InterceptorChain I
unfolding wrap_each
build_chain factories terminal =
    wrap_each (reverse factories) (record { head = terminal; owned = [] })
