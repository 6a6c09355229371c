-- ===== src/Receiver/Request/Reply.antt =====
-- Order of the handlers and the response (receiver/src/request.cpp,
-- receiver/src/request_handler/requests_dispatcher.cpp).
use asapo.Base.{◌≡◌, refl, ◌↔◌, Bool, true, false, List, [], ◌∷◌, ◌++◌, Option, none, some, arith}
use asapo.Common.Networking.{no_error, warning}
use asapo.Receiver.Request.{
  ReceiverError, Request, info_message, warning_message, Step, next_handler, handle,
  get_network_code_from_error, create_response_to_request,
}

-- Handlers run in order up to the first error: the later ones run exactly if none of the earlier ones
-- failed, on the request and the world that those left.
handle-append :
    {W : Type 0} (xs ys : List (Step W)) (r : Request) (w : W)
    → handle (xs ++ ys) r w
      ≡ (let ((err, r'), w') = handle xs r w in next_handler (handle ys) err r' w')
unfolding handle next_handler
handle-append [] ys r w = refl
handle-append (x ∷ xs) ys r w =
    let ((err, r'), w') = x r w in next-append xs ys err r' w' (handle-append xs ys r' w')
  where
    next-append :
        {W : Type 0} (xs ys : List (Step W)) (err : Option ReceiverError) (r : Request) (w : W)
        → handle (xs ++ ys) r w
          ≡ (let ((err', r'), w') = handle xs r w in next_handler (handle ys) err' r' w')
        → next_handler (handle (xs ++ ys)) err r w ≡ (
            let ((err', r'), w') = next_handler (handle xs) err r w in
            next_handler (handle ys) err' r' w')
    next-append xs ys none r w e = e
    next-append xs ys (some _) r w e = refl

abbrev pub is_warned : Request → Bool
is_warned r = elim r.response_message [
  | none ↦ false
  | some (m, type) ↦ elim type [ warning_message ↦ true | info_message ↦ false ]
]

-- The response says success exactly if no handler failed and none has left a warning. It says warning
-- exactly if one has, whether or not one failed after that.
pub response_codes :
    (r : Request) (err : Option ReceiverError)
    → let code = (create_response_to_request r err).error_code in
      ((code ≡ no_error) ↔ ((err ≡ none) × (is_warned r ≡ false)))
      × ((code ≡ warning) ↔ (is_warned r ≡ true))
unfolding create_response_to_request get_network_code_from_error
response_codes r err =
    ((λ e. (ground arith, ground arith), λ p. ground arith), (λ e. ground arith, λ p. ground arith))
