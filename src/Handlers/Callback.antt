-- ===== src/Handlers/Callback.antt =====
-- src/piconaut/handlers/handler_base.h and piconaut_handler_t.h: the way from libh2o's callback to a
-- handler. `Hd` is the type of the user's handlers, which define `HandleRequest` only.
pub mod Served
use piconaut.Prelude.{◌⊎◌, inl, inr, ℕ, Str, bytes, Option, none, some, Map}
use piconaut.Errors.{Error, runtime_error}
use piconaut.Http.Request.{H2oReq, make_request}
use piconaut.Http.Response.{Exchange, InlineFault, make_response}
use piconaut.Handlers.Dispatcher.{
  GlobalDispatcherHandler, Outcome, done, thrown, undefined, handle_impl,
}

-- The classes that derive from `HandlerBase`.
pub data HandlerBase (Hd : Type 0) : Type 0 where
  global_dispatcher : GlobalDispatcherHandler Hd → HandlerBase Hd
  user_handler : Hd → HandlerBase Hd

-- `piconaut_handler_t`: a null `handler` is `none`.
pub record PiconautHandler (Hd : Type 0) : Type 0 where
  pub handler : Option (HandlerBase Hd)

-- `MakePiconautHandler(pathconf, handler)`
unfoldable pub make_piconaut_handler : {Hd : Type 0} → Option (HandlerBase Hd) → PiconautHandler Hd
make_piconaut_handler handler' = record { handler = handler' }

-- What the callback comes to: its result with the response, an exception that leaves it, or undefined
-- behaviour.
pub data CallbackResult : Type 0 where
  returned : ℕ → Exchange → CallbackResult
  raised : Error → CallbackResult
  undefined_call : CallbackResult

abbrev pub unimplemented : Error
unimplemented = runtime_error (bytes "Unimplemented void Handle on Handler base")

module _ {Hd : Type 0} (handle_request : Hd → H2oReq → Map Str Str → Exchange → Outcome)
    (fault : InlineFault) where
  -- The virtual `__HandleImpl(req, res)`, which `HandlerBase` defines for all but the dispatcher.
  unfoldable pub virtual_handle_impl : HandlerBase Hd → H2oReq → Exchange → Outcome
  virtual_handle_impl (global_dispatcher d) req r = handle_impl handle_request fault d req r
  virtual_handle_impl (user_handler h) req r = thrown unimplemented

  abbrev pub callback_result : Outcome → CallbackResult
  callback_result (done r) = returned 0 r
  callback_result (thrown e) = raised e
  callback_result undefined = undefined_call

  abbrev pub call_handler : Option (HandlerBase Hd) → H2oReq → Exchange → CallbackResult
  call_handler none req r = undefined_call
  call_handler (some h) req r = callback_result (virtual_handle_impl h req r)

  -- The objects that the callback makes, and the call of the handler with them.
  abbrev pub with_objects :
      Option (HandlerBase Hd) → H2oReq ⊎ Error → Exchange ⊎ Error → CallbackResult
  with_objects h (inr e) response = raised e
  with_objects h (inl request) (inr e) = raised e
  with_objects h (inl request) (inl response) = call_handler h request response

  -- `HandlerCallback(self, req)`, for the response that belongs to the request
  unfoldable pub handler_callback :
      Option (PiconautHandler Hd) → Option H2oReq → Exchange → CallbackResult
  unfolding virtual_handle_impl
  handler_callback none req r = returned 1 r
  handler_callback (some self) none r = returned 1 r
  handler_callback (some self) (some req) r =
      with_objects self.handler (make_request (some req)) (make_response (some r))
