-- ===== src/Daemon/Middleware.antt =====
-- internal/interface/web-socket/middleware: middleware_service.go, logging.go and panic.go.
use neutrino_elements.Prelude.{
  ℕ, zero, suc, ◌≤◌, ◌<◌, ◌≡◌, refl, sym, ap, ◌∙◌, List, [], ◌∷◌, ◌++◌, Option, none, some, Result,
  ok, err, Error, arith, length, take, take_all,
}

pub data Answer : Type 0 where
  internal_server_error : Answer
  served : ℕ → Answer

-- An http.HandlerFunc: a request is answered, or the handler panics.
abbrev pub Handler : Type 0 → Type 0
Handler R = R → Result Answer

abbrev pub Middleware : Type 0 → Type 0
Middleware R = Handler R → Handler R

abbrev get_elem? {ℓ} : {A : Type ℓ} → List A → ℕ → Option A
get_elem? [] i = none
get_elem? (x ∷ xs) zero = some x
get_elem? (x ∷ xs) (suc i) = get_elem? xs i

module _ {R : Type 0} where
  unfoldable pub logging_middleware : Middleware R
  logging_middleware next r = next r

  unfoldable pub panic_recovery : Middleware R
  panic_recovery next r = elim (next r) [
    | ok answer ↦ ok answer
    | err Error.panic ↦ ok internal_server_error
    | err e ↦ err e
  ]

  -- The loop of `WrapHandlerWithMiddlewares`, over the indices below `i` from the greatest down. An index
  -- out of range does not occur.
  unfoldable pub wrap_loop : ℕ → List (Middleware R) → Handler R → Handler R
  wrap_loop zero middlewares handler = handler
  wrap_loop (suc i) middlewares handler = elim (get_elem? middlewares i) [
    | none ↦ handler
    | some middleware ↦ wrap_loop i middlewares (middleware handler)
  ]

  unfoldable pub wrap_handler_with_middlewares : Handler R → List (Middleware R) → Handler R
  unfolding wrap_loop
  wrap_handler_with_middlewares handler middlewares =
      wrap_loop (length middlewares) middlewares handler

  -- The handler in all middlewares, of which the first is outermost.
  abbrev pub nested : Handler R → List (Middleware R) → Handler R
  nested handler [] = handler
  nested handler (m ∷ ms) = m (nested handler ms)

  nested-append :
      (handler : Handler R) (ms : List (Middleware R)) (m : Middleware R)
      → nested handler (ms ++ (m ∷ [])) ≡ nested (m handler) ms
  nested-append handler [] m = refl
  nested-append handler (x ∷ ms) m = ap x (nested-append handler ms m)

  at_index :
      (i : ℕ) (ms : List (Middleware R))
      → i < length ms
      → (m : Middleware R) × (get_elem? ms i ≡ some m) × (take (suc i) ms ≡ take i ms ++ (m ∷ []))
  at_index i [] h = absurd (omega arith)
  at_index zero (x ∷ ms) h = (x, refl, refl)
  at_index (suc i) (x ∷ ms) h = let (m, e, f) = at_index i ms (omega arith) in (m, e, ap (◌∷◌ x) f)

  wrap_loop-nested :
      (i : ℕ) (ms : List (Middleware R)) (handler : Handler R)
      → i ≤ length ms
      → wrap_loop i ms handler ≡ nested handler (take i ms)
  unfolding wrap_loop
  wrap_loop-nested zero ms handler h = refl
  wrap_loop-nested (suc i) ms handler h =
      let (m, e, f) = at_index i ms (omega arith) in
      rw (wrap_loop, e)
        (wrap_loop-nested i ms (m handler) (omega arith)
          ∙ sym (nested-append handler (take i ms) m)
          ∙ ap (nested handler) (sym f))

  -- `WrapHandlerWithMiddlewares` puts the handler in all the middlewares, the first one outermost.
  pub wrap_handler-nested :
      (handler : Handler R) (middlewares : List (Middleware R))
      → wrap_handler_with_middlewares handler middlewares ≡ nested handler middlewares
  unfolding wrap_handler_with_middlewares
  wrap_handler-nested handler middlewares =
      wrap_loop-nested (length middlewares) middlewares handler (omega arith)
      ∙ ap (nested handler) (take_all (length middlewares) middlewares (omega arith))
