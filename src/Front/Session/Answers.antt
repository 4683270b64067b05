-- ===== src/Front/Session/Answers.antt =====
-- The answers to a request.
use gateway_poc.Base.{
  ℕ, suc, ◌+◌, ◌≡◌, ◌≢◌, ◌↔◌, refl, ◌⊎◌, inl, inr, [], ◌∷◌, ◌++◌, ◌==◌, if◌then◌else◌, arith,
  Bool-cases,
}
use gateway_poc.Base.Bytes.{Bytes, codes, str_eq, str_eq_iff}
use gateway_poc.Front.Handler.{ok, HandlerResult}
use gateway_poc.Front.Session.{
  Verb, post, other_verb, accepted, bad_request, method_not_allowed, Request, instrument_path,
  json_content_type, error_body, routed, handle_request,
}

module _ {W : Type 0} (handler : Bytes → W → HandlerResult × W) (q : Request) (w : W) where
  routed-accepted_iff :
      (v : Verb)
      → ((routed handler v q w).0.status ≡ accepted)
        ↔ ((v ≡ post) × (q.target ≡ instrument_path) × ((handler q.body w).0.error ≡ ok))
  unfolding routed
  routed-accepted_iff (other_verb name) = (λ e. cc, λ h. cc (h.0))
  routed-accepted_iff post =
      let path = str_eq_iff q.target instrument_path in
      elim (Bool-cases (str_eq q.target instrument_path)) [
        | inl hit ↦ rw hit (λ e. (refl, path.0 hit, ground arith), λ h. ground arith)
        | inr miss ↦ rw miss (λ e. cc, λ h. cc (miss, path.1 h.1))
      ]

  -- A request is accepted exactly if it is a POST to the path of instruments and the handler took
  -- its body.
  pub handle_request-accepted_iff :
      ((handle_request handler q w).0.status ≡ accepted)
      ↔ ((q.method ≡ post) × (q.target ≡ instrument_path) × ((handler q.body w).0.error ≡ ok))
  unfolding handle_request
  handle_request-accepted_iff = routed-accepted_iff q.method

  routed_elsewhere :
      (v : Verb)
      → (v ≢ post) ⊎ (q.target ≢ instrument_path)
      → ((routed handler v q w).1 ≡ w)
        × (((routed handler v q w).0.status ≡ method_not_allowed)
            ⊎ ((routed handler v q w).0.status ≡ bad_request))
  unfolding routed
  routed_elsewhere (other_verb name) h = (refl, inl refl)
  routed_elsewhere post (inl h) = absurd (h refl)
  routed_elsewhere post (inr h) = elim (Bool-cases (str_eq q.target instrument_path)) [
    | inl hit ↦ absurd (h ((str_eq_iff q.target instrument_path).0 hit))
    | inr miss ↦ rw miss (refl, inr refl)
  ]

  -- A request that is no POST, or not to the path of instruments, leaves the storage alone and is
  -- answered with `method_not_allowed` or `bad_request`.
  pub handle_request_elsewhere :
      (q.method ≢ post) ⊎ (q.target ≢ instrument_path)
      → ((handle_request handler q w).1 ≡ w)
        × (((handle_request handler q w).0.status ≡ method_not_allowed)
            ⊎ ((handle_request handler q w).0.status ≡ bad_request))
  unfolding handle_request
  handle_request_elsewhere h = routed_elsewhere q.method h

  routed-request :
      (v : Verb)
      → ((routed handler v q w).0.version ≡ q.version)
        × ((routed handler v q w).0.keep_alive ≡ q.keep_alive)
        × ((routed handler v q w).0.content_type ≡ json_content_type)
  unfolding routed
  routed-request (other_verb name) = (refl, refl, refl)
  routed-request post = elim (Bool-cases (str_eq q.target instrument_path)) [
    | inl hit ↦ rw hit (refl, refl, refl)
    | inr miss ↦ rw miss (refl, refl, refl)
  ]

  -- Every answer has the version and the keep-alive of its request.
  pub handle_request-request :
      ((handle_request handler q w).0.version ≡ q.version)
      × ((handle_request handler q w).0.keep_alive ≡ q.keep_alive)
      × ((handle_request handler q w).0.content_type ≡ json_content_type)
  unfolding handle_request
  handle_request-request = routed-request q.method

-- A handler that carries a value beside the storage answers as the one without it.
module _ {W X : Type 0} (handler : Bytes → W → HandlerResult × W)
    (carrying : Bytes → X × W → HandlerResult × (X × W)) (x : X) (w : W) (q : Request)
    (same : carrying q.body (x, w) ≡ ((handler q.body w).0, (x, (handler q.body w).1))) where
  routed-carried :
      (v : Verb)
      → routed carrying v q (x, w) ≡ ((routed handler v q w).0, (x, (routed handler v q w).1))
  unfolding routed
  routed-carried (other_verb name) = refl
  routed-carried post = elim (Bool-cases (str_eq q.target instrument_path)) [
    | inl hit ↦ rw (hit, same) refl
    | inr miss ↦ rw miss refl
  ]

  pub handle_request-carried :
      handle_request carrying q (x, w)
      ≡ ((handle_request handler q w).0, (x, (handle_request handler q w).1))
  unfolding handle_request
  handle_request-carried = routed-carried q.method

-- The quotation marks of a text.
pub quotes : Bytes → ℕ
quotes [] = 0
quotes (c ∷ s) = if c == b'"' then suc (quotes s) else quotes s

quotes-append : (s t : Bytes) → quotes (s ++ t) ≡ quotes s + quotes t
unfolding quotes
quotes-append [] t = omega arith
quotes-append (c ∷ s) t = ground (arith, quotes-append s t)

-- The text of an error is put between quotation marks as it is: those that it holds itself stand
-- in the body unescaped, beside the four of the object's key and value.
pub quotes-error_body : (message : Bytes) → quotes (error_body message) ≡ 4 + quotes message
unfolding error_body quotes
quotes-error_body message = omega (
  arith,
  quotes-append (codes "{\"error\": \"" ++ message) (codes "\"}"),
  quotes-append (codes "{\"error\": \"") message,
)
