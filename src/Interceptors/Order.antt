-- ===== src/Interceptors/Order.antt =====
-- The order of the interceptors in a chain.
use temporal_cpp.Prelude.{Option, none, some, List, [], ◌∷◌, ◌++◌, or_else, ◌≡◌, refl, ap, ◌∙◌}
use temporal_cpp.Interceptors.{InterceptorChain, wrap, wrap_each, build_chain, reverse}

module _ {ℓ} {I : Type ℓ} where
  -- The chain as it is read: the first factory is given what all those behind it make of the terminal,
  -- and is passed over where it declines.
  abbrev pub outermost_first : List (I → Option I) → I → I
  outermost_first [] terminal = terminal
  outermost_first (factory ∷ factories) terminal =
      let inner = outermost_first factories terminal in or_else inner (factory inner)

  -- The wrappers that the factories made, the innermost first.
  abbrev pub wrappers : List (I → Option I) → I → List I
  wrappers [] terminal = []
  wrappers (factory ∷ factories) terminal = elim (factory (outermost_first factories terminal)) [
    | none ↦ wrappers factories terminal
    | some wrapper ↦ wrappers factories terminal ++ wrapper ∷ []
  ]

  wrap_each-append :
      (fs gs : List (I → Option I)) (chain : InterceptorChain I)
      → wrap_each (fs ++ gs) chain ≡ wrap_each gs (wrap_each fs chain)
  unfolding wrap_each
  wrap_each-append [] gs chain = refl
  wrap_each-append (f ∷ fs) gs chain = wrap_each-append fs gs (wrap (f chain.head) chain)

  wrap-or_else :
      (found : Option I) (chain : InterceptorChain I)
      → wrap found chain ≡ record {
        head = or_else chain.head found;
        owned = elim found [ none ↦ chain.owned | some w ↦ chain.owned ++ w ∷ [] ];
      }
  unfolding wrap
  wrap-or_else none chain = refl
  wrap-or_else (some w) chain = refl

  -- Walking the factories from the back to the front makes the first factory the outermost interceptor
  -- of the chain and the terminal the innermost, passes over the factories that decline, and keeps
  -- every wrapper that was made.
  pub build_chain-outermost_first :
      (factories : List (I → Option I)) (terminal : I)
      → build_chain factories terminal
        ≡ record { head = outermost_first factories terminal; owned = wrappers factories terminal }
  unfolding build_chain wrap_each
  build_chain-outermost_first [] terminal = refl
  build_chain-outermost_first (f ∷ fs) terminal =
      let inner = build_chain-outermost_first fs terminal in
      wrap_each-append (reverse fs) (f ∷ []) (record { head = terminal; owned = [] })
      ∙ ap (λ c. wrap (f c.head) c) inner
      ∙ wrap-or_else (f (outermost_first fs terminal)) _
