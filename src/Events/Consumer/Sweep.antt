-- ===== src/Events/Consumer/Sweep.antt =====
-- Which consumers `_sweep_zombie_consumers` removes.
use tr_shared_lib.Base.{◌≤◌, ◌≡◌, refl, ◌≢◌, String, Option, true, List, [], ◌∷◌, arith, eq_iff}
use mathlib.Core.List.{Memᴰ}
use tr_shared_lib.Base.Dict.{Dict}
use tr_shared_lib.Base.Effect.{bind-keeps, bind-keeps_ran, when-keeps, Exn, ok, pure, when, ◌>>=◌}
use tr_shared_lib.Events.Consumer.{EventConsumer}
use tr_shared_lib.Events.Consumer.Loops.{
  ConsumerInfo, GroupRedis, Reply, reply, response_error, Timing, is_zombie, sweep_each,
  after_xinfo, sweep_zombie_consumers,
}
use tr_shared_lib.Events.Envelope.{EventEnvelope}
use tr_shared_lib.Events.RetryState.{StreamRedis}

module _ {J S : Type 0} (group : GroupRedis S) (redis : StreamRedis S) (text_of : Exn → String)
    (parse : String → Dict String → Option (EventEnvelope J)) (t : Timing)
    (c : EventConsumer J S) where
  -- another consumer, with a name and no pending entries, idle for long enough
  abbrev pub IsZombie : ConsumerInfo → Type 0
  IsZombie info =
      (info.name ≢ "")
      × (info.name ≢ c.consumer_name)
      × (info.pending ≡ 0)
      × (t.zombie_idle_ms ≤ info.idle)

  is_zombie-IsZombie :
      (info : ConsumerInfo) → is_zombie group redis text_of parse t c info ≡ true → IsZombie info
  unfolding is_zombie
  is_zombie-IsZombie info h =
      ground (arith, h, eq_iff info.name "", eq_iff info.name c.consumer_name)

  module _ (P : S → Type 0) where
    -- the removal of such a consumer, of those that are listed, keeps `P`
    abbrev Spares : List ConsumerInfo → Type 0
    Spares infos =
        (info : ConsumerInfo) (s : S)
        → Memᴰ info infos
        → IsZombie info
        → P s
        → P (group.xgroup_delconsumer c.stream_name c.consumer_group info.name s).1

    sweep_each_keeps :
        (infos : List ConsumerInfo) (s : S)
        → Spares infos
        → P s
        → P (sweep_each group redis text_of parse t c infos s).1
    unfolding sweep_each
    sweep_each_keeps [] s kept p = p
    sweep_each_keeps (info ∷ infos) s kept p =
        let delete = group.xgroup_delconsumer c.stream_name c.consumer_group info.name in
        let drop = delete >>= λ answer. pure tt in
        bind-keeps P (when (is_zombie group redis text_of parse t c info) drop)
          (λ _. sweep_each group redis text_of parse t c infos) s
          (when-keeps P (is_zombie group redis text_of parse t c info) drop s p (λ q.
            bind-keeps P delete (λ _. pure tt) s
              (kept info s (Memᴰ.head refl) (is_zombie-IsZombie info q) p) (λ _ s' p'. p')))
          (λ _ s' p'. sweep_each_keeps infos s' (λ i s'' m. kept i s'' (Memᴰ.tail m)) p')

    after_xinfo_keeps :
        (answer : Reply (List ConsumerInfo)) (s : S)
        → ((infos : List ConsumerInfo) → answer ≡ reply infos → Spares infos)
        → P s
        → P (after_xinfo group redis text_of parse t c answer s).1
    unfolding after_xinfo
    after_xinfo_keeps (reply consumers) s kept p =
        sweep_each_keeps consumers s (kept consumers refl) p
    after_xinfo_keeps (response_error e) s kept p = p

    -- Whatever a look at the consumers keeps, and the removal of any consumer that this look lists
    -- with another name, no pending entries and idle for long enough, the sweep keeps too.
    pub sweep_keeps :
        (s : S)
        → P (group.xinfo_consumers c.stream_name c.consumer_group s).1
        → P s
        → ((infos : List ConsumerInfo) (info : ConsumerInfo) (s' : S)
            → (group.xinfo_consumers c.stream_name c.consumer_group s).0 ≡ ok (reply infos)
            → Memᴰ info infos
            → IsZombie info
            → P s'
            → P (group.xgroup_delconsumer c.stream_name c.consumer_group info.name s').1)
        → P (sweep_zombie_consumers group redis text_of parse t c s).1
    unfolding sweep_zombie_consumers
    sweep_keeps s looked p kept =
        let look = group.xinfo_consumers c.stream_name c.consumer_group in
        let after = after_xinfo group redis text_of parse t c in
        when-keeps P (redis.has_client s) (look >>= after) s p (λ _.
          bind-keeps_ran P look after s looked (λ answer e p'.
            after_xinfo_keeps answer (look s).1
              (λ infos same info s' m z. kept infos info s' (rw same at e) m z) p'))
