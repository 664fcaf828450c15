-- ===== src/Events/Consumer/Shutdown.antt =====
-- What ends `_consume_loop` from within.
use tr_shared_lib.Base.Dict.{Dict}
use tr_shared_lib.Base.Effect.{Effect}
