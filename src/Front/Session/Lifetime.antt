-- ===== src/Front/Session/Lifetime.antt =====
-- The life of a session: which operations it starts, and what it has answered.
use gateway_poc.Base.{
  ◌≡◌, refl, sym, ap, subst, ◌∙◌, Option, none, some, Bool, true, false, inl, inr, List, [], ◌∷◌,
  ◌++◌, Bool-cases, All, All-append, arith,
}
use gateway_poc.Base.Bytes.{Bytes}
use gateway_poc.Front.Handler.{HandlerResult}
use gateway_poc.Front.Session.{
  Request, Pending, reading, writing, nothing, ReadError, destroy, Session, make_session, run,
  on_read, on_write, handle_request, keeps_alive,
}
use gateway_poc.Front.Session.Answers.{handle_request-request}

module _ {W : Type 0} (handler : Bytes → W → HandlerResult × W) where
  -- The steps of a session, with the requests that it has read: an operation that is pending ends,
  -- and its handler runs.
  pub data Run (s : Session handler) : List Request → Session handler → Type 0 where
    here : Run s [] s
    stopped :
        {qs : List Request} {t u : Session handler} (ec : ReadError)
        → Run s qs t
        → t.pending ≡ reading
        → u ≡ on_read handler t (inl ec)
        → Run s qs u
    received :
        {qs qs' : List Request} {t u : Session handler} (q : Request)
        → Run s qs t
        → t.pending ≡ reading
        → u ≡ on_read handler t (inr q)
        → qs' ≡ qs ++ (q ∷ [])
        → Run s qs' u
    wrote :
        {qs : List Request} {t u : Session handler} (failed : Bool)
        → Run s qs t
        → t.pending ≡ writing
        → u ≡ on_write handler t failed
        → Run s qs u

  -- The requests handled one after the other.
  pub world_after : List Request → W → W
  world_after [] w = w
  world_after (q ∷ qs) w = world_after qs (handle_request handler q w).1

  world_after-append :
      (qs : List Request) (q : Request) (w : W)
      → world_after (qs ++ (q ∷ [])) w ≡ (handle_request handler q (world_after qs w)).1
  unfolding world_after
  world_after-append [] q w = refl
  world_after-append (x ∷ qs) q w = world_after-append qs q (handle_request handler x w).1

  abbrev pub KeepsAlive : Request → Type 0
  KeepsAlive q = q.keep_alive ≡ true

  -- What holds of a session that began by reading in the world `w`.
  pub record Inv (w : W) (qs : List Request) (u : Session handler) : Type 0 where
    pub handled : u.world ≡ world_after qs w
    pub open_ended : u.pending ≡ reading → All KeepsAlive qs
    pub answering :
        u.pending ≡ writing
        → (before : List Request) × (q : Request) × (qs ≡ before ++ (q ∷ []))
          × All KeepsAlive before
          × (keeps_alive handler u.response ≡ q.keep_alive)

  stopped-Inv :
      (w : W) (qs : List Request) (t : Session handler) (ec : ReadError)
      → Inv w qs t
      → Inv w qs (on_read handler t (inl ec))
  unfolding on_read
  stopped-Inv w qs t ec v = record {
    handled = v.handled;
    open_ended = λ e. cc;
    answering = λ e. cc;
  }

  received-Inv :
      (w : W) (qs : List Request) (t : Session handler) (q : Request)
      → Inv w qs t
      → t.pending ≡ reading
      → Inv w (qs ++ (q ∷ [])) (on_read handler t (inr q))
  unfolding on_read keeps_alive
  received-Inv w qs t q v e = record {
    handled =
        ap (λ (x : W). (handle_request handler q x).1) v.handled ∙ sym (world_after-append qs q w);
    open_ended = λ h. cc;
    answering = λ h. (qs, q, refl, v.open_ended e, (handle_request-request handler q t.world).1);
  }

  wrote-Inv :
      (w : W) (qs : List Request) (t : Session handler) (failed : Bool)
      → Inv w qs t
      → t.pending ≡ writing
      → Inv w qs (on_write handler t failed)
  unfolding on_write
  wrote-Inv w qs t true v e = record {
    handled = v.handled;
    open_ended = λ h. cc;
    answering = λ h. cc;
  }
  wrote-Inv w qs t false v e = elim (Bool-cases (keeps_alive handler t.response)) [
    | inl alive ↦
        let (before, q, split, kept, same) = v.answering e in
        rw alive (record {
          handled = v.handled;
          open_ended =
              λ h. rw split (All-append KeepsAlive before (q ∷ []) kept (sym same ∙ alive, tt));
          answering = λ h. cc;
        })
    | inr last ↦ rw last (record { handled = v.handled; open_ended = λ h. cc; answering = λ h. cc })
  ]

  -- In every state of a session that began by reading the storage has seen the requests that were
  -- read, each once and in their order; it waits for another request only if all of them keep the
  -- connection alive, and the answer that it writes is to the last one.
  pub Run-Inv :
      (s : Session handler) {qs : List Request} {u : Session handler}
      → s.pending ≡ reading
      → Run s qs u
      → Inv s.world qs u
  unfolding world_after
  Run-Inv s e here = record { handled = refl; open_ended = λ _. tt; answering = λ h. cc (e, h) }
  Run-Inv s e (stopped {qs = qs} {t = t} ec r p eq) =
      rw eq (stopped-Inv s.world qs t ec (Run-Inv s e r))
  Run-Inv s e (received {qs = qs} {t = t} q r p eq grown) =
      rw (eq, grown) (received-Inv s.world qs t q (Run-Inv s e r) p)
  Run-Inv s e (wrote {qs = qs} {t = t} failed r p eq) =
      rw eq (wrote-Inv s.world qs t failed (Run-Inv s e r) p)

  made-world :
      (o : Option Bytes) (w : W) (s : Session handler)
      → make_session handler o w ≡ some s
      → s.world ≡ w
  unfolding make_session
  made-world none w s e = cc
  made-world (some endpoint) w s e = ground arith

  -- The same of a session from its constructor on.
  pub run-Inv :
      (o : Option Bytes) (w : W) (s : Session handler) {qs : List Request} {u : Session handler}
      → make_session handler o w ≡ some s
      → Run (run handler s) qs u
      → Inv w qs u
  unfolding run
  run-Inv o w s {qs} {u} e r =
      subst (λ (x : W). Inv x qs u) (made-world o w s e) (Run-Inv (run handler s) refl r)

  -- The destructor leaves a session as it is that awaits nothing.
  pub destroy_idle : (u : Session handler) → u.pending ≡ nothing → destroy handler u ≡ u
  unfolding destroy
  destroy_idle u e = ap (λ (p : Pending). record u { pending = p }) (sym e)
