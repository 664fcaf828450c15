-- ===== src/Webhooks/Router.antt =====
-- `WebhookRouter` of src/tr_shared/webhooks/router.py.
use tr_shared_lib.Base.{String, Option, none, some, [], ◌≡◌, if◌then◌else◌, str_eq, arith, eq_iff}
use tr_shared_lib.Base.Dict.{Dict, lookup, insert, lookup-insert}
use tr_shared_lib.Base.Effect.{Effect, pure}
use tr_shared_lib.Webhooks.Schemas.{WebhookEvent}

abbrev pub WebhookHandler : Type 0 → Type 0 → Type 0
WebhookHandler J S = WebhookEvent J → Effect S (Unit {0})

pub record WebhookRouter (J S : Type 0) : Type 0 where
  pub handlers : Dict (Dict (WebhookHandler J S))
  pub default_handlers : Dict (WebhookHandler J S)

-- `self._handlers.get(provider, {})`
unfoldable pub handlers_of : {H : Type 0} → String → Dict (Dict H) → Dict H
handlers_of provider handlers = elim (lookup provider handlers) [ none ↦ [] | some d ↦ d ]

module _ {J S : Type 0} where
  unfoldable pub register :
      WebhookRouter J S → String → String → WebhookHandler J S → WebhookRouter J S
  register r provider event_type handler = record r {
    handlers =
        insert provider (insert event_type handler (handlers_of provider r.handlers)) r.handlers;
  }

  unfoldable pub register_default :
      WebhookRouter J S → String → WebhookHandler J S → WebhookRouter J S
  register_default r provider handler = record r {
    default_handlers = insert provider handler r.default_handlers;
  }

  -- the handler that `dispatch` chooses
  unfoldable pub choose : WebhookRouter J S → String → String → Option (WebhookHandler J S)
  choose r provider event_type = elim (lookup event_type (handlers_of provider r.handlers)) [
    | none ↦ lookup provider r.default_handlers
    | some h ↦ some h
  ]

  unfoldable pub dispatch : WebhookRouter J S → WebhookEvent J → Effect S (Unit {0})
  dispatch r event = elim (choose r event.provider event.event_type) [
    | none ↦ pure tt
    | some h ↦ h event
  ]

  -- A registration changes the choice for its own provider and event type only: there it is chosen,
  -- whatever default is registered, and elsewhere the choice stays what it was.
  choose-register :
      (r : WebhookRouter J S) (provider event_type : String) (handler : WebhookHandler J S)
      (p e : String)
      → choose (register r provider event_type handler) p e ≡ (
          if str_eq provider p
          then (if str_eq event_type e then some handler else choose r p e)
          else choose r p e)
  unfolding choose register handlers_of
  choose-register r provider event_type handler p e = ground (
    arith,
    eq_iff provider p,
    eq_iff event_type e,
    lookup-insert provider p (insert event_type handler (handlers_of provider r.handlers))
        r.handlers,
    lookup-insert event_type e handler (handlers_of provider r.handlers),
  )
