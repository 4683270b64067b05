-- ===== src/Back/RedisProducer/Storage/Mark.antt =====
-- A mark of the producer of Redis over a server with a stream.
use mathlib.Core.List.{append_assoc}
use gateway_poc.Base.{
  ℕ, ◌≡◌, ◌≢◌, refl, sym, subst, ◌∙◌, ◌⊎◌, inl, inr, Bool, true, false, Option, none, some, List,
  ◌++◌, map, if◌then◌else◌,
}
use gateway_poc.Base.Bytes.{Bytes}
use gateway_poc.Base.Exec.{pure, gets, continue, ◌>>=◌, ◌>>◌}
use gateway_poc.Base.Outcome.{Outcome, ok, throw, fault}
use gateway_poc.Common.Config.{RedisConfig}
use gateway_poc.Hiredis.{Hiredis, Reply, str, array, error, other, Err, text}
use gateway_poc.Back.Message.{Message}
use gateway_poc.Back.Consumer.Chunks.{ids}
use gateway_poc.Back.Storage.Calls.{
  Defined, if-Defined, bind-Defined, bind-Keeps, Grows, Grows-trans, still_first, Marks,
  threw-Marks, bind-Marks,
}
use gateway_poc.Back.Redis.{make_xdel_command}
use gateway_poc.Back.Redis.Stream.{StreamEntry, to_message}
use gateway_poc.Back.RedisProducer.{
  RedisError, read_failed, State, Action, lifted, is_eof, check_err, check_reply, get_connection,
  reconnect_again, delete, delete_again, mark_consumed,
}
use gateway_poc.Back.RedisProducer.Marking.{finish-ok}
use gateway_poc.Back.RedisProducer.Server.{Safe, Refused, xdel_text, IsStream}
use gateway_poc.Back.RedisProducer.Storage.Calls.{
  entries, check_err-Good, check_reply-Good, get_connection-Good, reconnect_again-Good,
}
use gateway_poc.Back.RedisProducer.Storage.Fetch.{first-InRange, check_err-same}
use gateway_poc.Back.RedisProducer.Storage.Command.{given-xdel_text}

true-not-false : true ≡ false → ⊥
true-not-false e = cc

module _ (lib : Hiredis) (stream : lib.World → List StreamEntry)
    (Gone : List StreamEntry → lib.World → Type 0) (law : IsStream lib stream Gone)
    (config : RedisConfig) (chunk_size : ℕ) where
  open lib use {World, command, err, errstr}

  abbrev rows : State lib → List StreamEntry
  rows = entries lib stream Gone law config chunk_size

  -- What the checks at the end of a mark make of a reply.
  abbrev finish : ℕ → Option Reply → Action lib (Unit {0})
  finish c o =
      check_err lib config chunk_size read_failed c
      >> check_reply lib config chunk_size read_failed o

  check_reply-same :
      (o : Option Reply) (s : State lib) → (check_reply lib config chunk_size read_failed o s).1 ≡ s
  unfolding check_reply
  check_reply-same none s = refl
  check_reply-same (some (error shown)) s = refl
  check_reply-same (some (str t)) s = refl
  check_reply-same (some (array es)) s = refl
  check_reply-same (some (other n)) s = refl

  finish-same : (c : ℕ) (o : Option Reply) (s : State lib) → (finish c o s).1 ≡ s
  finish-same c o =
      bind-Keeps (check_err lib config chunk_size read_failed c)
        (λ _. check_reply lib config chunk_size read_failed o) (λ s t. t ≡ s) (λ s t u e f. f ∙ e)
        (check_err-same lib stream Gone law config chunk_size read_failed c)
        (λ _. check_reply-same o)

  finish-Defined : (c : ℕ) (o : Option Reply) → Defined (finish c o)
  finish-Defined c o =
      bind-Defined (check_err lib config chunk_size read_failed c)
        (λ _. check_reply lib config chunk_size read_failed o)
        (check_err-Good lib stream Gone law config chunk_size read_failed c).defined
        (λ _. (check_reply-Good lib stream Gone law config chunk_size read_failed o).defined)

  module _ (c : ℕ) (es : List StreamEntry) where
    abbrev sent : Action lib (Option Reply)
    sent = lifted lib (command c (text (xdel_text es)))

    abbrev sent_again : Action lib (Option Reply)
    sent_again = reconnect_again lib config chunk_size >> sent

    -- Where a mark that began in `s` stands behind a command with the reply `o`.
    abbrev Stage : List StreamEntry → State lib → Option Reply → State lib → Type 0
    Stage rest s o t =
        (Gone es t.world × ((more : List StreamEntry) × (rows t ≡ rest ++ more)))
        ⊎ (Refused o (err t.world c) × Grows rows s t)

    finish-Marks :
        (rest : List StreamEntry) (s : State lib) (o : Option Reply) (t : State lib)
        → Stage rest s o t
        → Marks rows rest s (finish c o t).0 (finish c o t).1
    finish-Marks rest s o t stage =
        subst (λ (u : State lib). Marks rows rest s (finish c o t).0 u) (sym (finish-same c o t))
          (record {
            done = λ h. elim stage [
              | inl gone ↦ gone.1
              | inr kept ↦
                  let (healthy, fine, same) = finish-ok lib config chunk_size c o t tt h in
                  absurd (true-not-false (sym (kept.0 healthy) ∙ fine))
            ];
            ended = elim stage [
              | inl gone ↦ (gone.1.0, inl gone.1.1)
              | inr kept ↦ (kept.1.0, inr kept.1.1)
            ];
            defined = finish-Defined c o t;
          })

    -- The second command, behind a connection made again.
    again-Stage :
        (rest : List StreamEntry) (s : State lib) (o : Option Reply) (t u : State lib)
        → rows s ≡ es ++ rest
        → Stage rest s o t
        → Safe lib stream Gone t.world u.world
        → Stage rest s
            (command c (text (xdel_text es)) u.world).0
            (record u { world = (command c (text (xdel_text es)) u.world).1 })
    again-Stage rest s o t u head (inl (gone, (more, left))) (grown, still) =
        let later = law.xdel_gone c es u.world (still es gone) in
        let v : State lib = record u { world = (command c (text (xdel_text es)) u.world).1 } in
        let g = Grows-trans rows t u v grown later.0 in
        inl (later.1 es (still es gone), (more ++ g.0, still_first rows rest more t v left g))
    again-Stage rest s o t u head (inr (refused, g)) (grown, still) =
        let g' = Grows-trans rows s t u g grown in
        elim (law.xdel_present c es (rest ++ g'.0) u.world (still_first rows es rest s u head g')) [
          | inl (gone, (more, left)) ↦
              inl (gone, (g'.0 ++ more, left ∙ append_assoc rest g'.0 more))
          | inr kept ↦
              let v : State lib = record u {
                world = (command c (text (xdel_text es)) u.world).1;
              } in
              inr (kept.0, Grows-trans rows s u v g' kept.1)
        ]

    -- An exception between the two commands.
    stopped-Marks :
        (rest : List StreamEntry) (s : State lib) (o : Option Reply) (t u : State lib)
        (e : RedisError)
        → Stage rest s o t
        → Safe lib stream Gone t.world u.world
        → Marks rows rest s (throw e) u
    stopped-Marks rest s o t u e (inl (gone, (more, left))) safe =
        let kept = still_first rows rest more t u left safe.0 in
        record { done = λ h. cc; ended = (more ++ safe.0.0, inl kept); defined = λ h. cc }
    stopped-Marks rest s o t u e (inr (refused, g)) safe =
        threw-Marks rows rest s e u (Grows-trans rows s t u g safe.0)

    retried-Marks :
        (rest : List StreamEntry) (s : State lib) (o : Option Reply) (b : Bool) (t : State lib)
        → rows s ≡ es ++ rest
        → Stage rest s o t
        → let m = (if b then sent_again else pure o) >>= finish c in
          Marks rows rest s (m t).0 (m t).1
    retried-Marks rest s o false t head stage = finish-Marks rest s o t stage
    retried-Marks rest s o true t head stage =
        go (reconnect_again lib config chunk_size t).0 (reconnect_again lib config chunk_size t).1
          ((reconnect_again-Good lib stream Gone law config chunk_size).safe t)
          ((reconnect_again-Good lib stream Gone law config chunk_size).defined t)
      where
        go :
            (r : Outcome RedisError (Unit {0})) (u : State lib)
            → Safe lib stream Gone t.world u.world
            → r ≢ fault
            → let after = continue r (λ _. sent) u in
              Marks rows rest s
                (continue after.0 (finish c) after.1).0
                (continue after.0 (finish c) after.1).1
        go (ok done) u safe n = finish-Marks rest s _ _ (again-Stage rest s o t u head stage safe)
        go (throw e) u safe n = stopped-Marks rest s o t u e stage safe
        go fault u safe n = absurd (n refl)

    -- A mark behind its connection.
    sent-Marks :
        (rest : List StreamEntry) (s : State lib)
        → rows s ≡ es ++ rest
        → let m = sent >>= λ o. gets (λ t. err t.world c) >>= λ e.
            (if is_eof e then sent_again else pure o) >>= finish c in
          Marks rows rest s (m s).0 (m s).1
    sent-Marks rest s head =
        let t : State lib = record s { world = (command c (text (xdel_text es)) s.world).1 } in
        retried-Marks rest s _ (is_eof (err t.world c)) t head
          (elim (law.xdel_present c es rest s.world head) [
            | inl gone ↦ inl gone
            | inr kept ↦ inr kept
          ])

  -- A mark with the text of its command, in its parts.
  module _ (query : Bytes) where
    abbrev send : ℕ → Action lib (Option Reply)
    send c = lifted lib (command c (text query))

    abbrev retry : ℕ → Option Reply → Err → Action lib (Option Reply)
    retry c o e = if is_eof e then reconnect_again lib config chunk_size >> send c else pure o

    abbrev judge : ℕ → Option Reply → Action lib (Unit {0})
    judge c o = gets (λ t. err t.world c) >>= λ e. retry c o e >>= finish c

    abbrev mark : Action lib (Unit {0})
    mark = get_connection lib config chunk_size >>= λ c. send c >>= judge c

    retry-Defined : (c : ℕ) (o : Option Reply) (e : Err) → Defined (retry c o e)
    retry-Defined c o e =
        if-Defined (is_eof e) (reconnect_again lib config chunk_size >> send c) (pure o)
          (bind-Defined (reconnect_again lib config chunk_size) (λ _. send c)
            (reconnect_again-Good lib stream Gone law config chunk_size).defined (λ _ s h. cc))
          (λ s h. cc)

    judge-Defined : (c : ℕ) (o : Option Reply) → Defined (judge c o)
    judge-Defined c o =
        bind-Defined (gets (λ t. err t.world c)) (λ e. retry c o e >>= finish c) (λ s h. cc)
          (λ e. bind-Defined (retry c o e) (finish c) (retry-Defined c o e) (finish-Defined c))

    mark-Defined : Defined mark
    mark-Defined =
        bind-Defined (get_connection lib config chunk_size) (λ c. send c >>= judge c)
          (get_connection-Good lib stream Gone law config chunk_size).defined
          (λ c. bind-Defined (send c) (judge c) (λ s h. cc) (judge-Defined c))

  -- A mark of what `es` became, with the entries behind them left.
  pub mark_consumed-Marks :
      (es rest : List StreamEntry) (given : List Message) (s : State lib)
      → ids given ≡ ids (map to_message es)
      → rows s ≡ es ++ rest
      → Marks rows rest s
          (mark_consumed lib config chunk_size given s).0
          (mark_consumed lib config chunk_size given s).1
  unfolding mark_consumed delete delete_again
  mark_consumed-Marks es rest given s same head =
      subst (λ (q : Bytes). Marks rows rest s (mark q s).0 (mark q s).1)
        (sym (
          given-xdel_text given es same
            (first-InRange lib stream Gone law config chunk_size es rest s.world head)))
        (bind-Marks rows (get_connection lib config chunk_size)
          (λ c. send (xdel_text es) c >>= judge (xdel_text es) c) rest s
          (λ t. ((get_connection-Good lib stream Gone law config chunk_size).safe t).0)
          (get_connection-Good lib stream Gone law config chunk_size).defined
          (λ c t g. sent-Marks c es (rest ++ g.0) t (still_first rows es rest s t head g)))

  pub mark_consumed-Defined :
      (given : List Message) → Defined (mark_consumed lib config chunk_size given)
  unfolding mark_consumed delete delete_again
  mark_consumed-Defined given = mark-Defined (make_xdel_command given)
