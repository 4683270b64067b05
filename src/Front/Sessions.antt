-- ===== src/Front/Sessions.antt =====
-- The sessions of a front beside one another, over one storage. The end of an operation, with all
-- that its handler does, is one step: so it is with one worker, and with several where no two
-- handlers are run at the same time. Handlers that overlap are not modelled here. Where the
-- constructor of a session throws, the process has ended, and there is no step.
use mathlib.Core.List.{append_assoc}
use gateway_poc.Base.{
  ℕ, ◌≡◌, ◌≢◌, refl, sym, ap, subst, ◌∙◌, Bool, true, false, Bool-cases, inl, inr, Option, some,
  List, [], ◌∷◌, ◌++◌, All, All-append,
}
use gateway_poc.Base.Bytes.{Bytes}
use gateway_poc.Front.Handler.{CheckResult, HandlerResult, Writer, handle}
use gateway_poc.Front.Session.{
  Request, Response, reading, writing, ReadError, Session, make_session, run, on_read, on_write,
  handle_request, keeps_alive,
}
use gateway_poc.Front.Requests.{answered_by, serve_all, serve_all-append}
use gateway_poc.Front.Session.Answers.{handle_request-carried}

module _ {W : Type 0} (check : Bytes → CheckResult) (write : ℕ → Writer W) where
  -- The handler in a thread, over the storage.
  abbrev pub in_thread : Bytes → ℕ × W → HandlerResult × (ℕ × W)
  in_thread bytes (thread, w) =
      let (r, w') = handle check (write thread) bytes w in (r, (thread, w'))

  abbrev pub Running : Type 0
  Running = Session in_thread

  -- The storage, the sessions, and the requests that were handled, each with its thread.
  pub record Serving : Type 0 where
    pub world : W
    pub sessions : List Running
    pub served : List (ℕ × Request)

  abbrev over : Running → ℕ → W → Running
  over r thread w = record r { world = (thread, w) }

  -- A new session, or the end of an operation that one of the sessions awaits.
  pub data Step (s t : Serving) : Type 0 where
    connected :
        (thread : ℕ) (endpoint : Option Bytes) (r : Running)
        → make_session in_thread endpoint (thread, s.world) ≡ some r
        → t ≡ record s { sessions = s.sessions ++ (run in_thread r ∷ []) }
        → Step s t
    received :
        (thread : ℕ) (q : Request) (before after : List Running) (r : Running)
        → s.sessions ≡ before ++ (r ∷ after)
        → r.pending ≡ reading
        → t ≡ record {
          world = (on_read in_thread (over r thread s.world) (inr q)).world.1;
          sessions = before ++ (on_read in_thread (over r thread s.world) (inr q) ∷ after);
          served = s.served ++ ((thread, q) ∷ []);
        }
        → Step s t
    stopped :
        (thread : ℕ) (ec : ReadError) (before after : List Running) (r : Running)
        → s.sessions ≡ before ++ (r ∷ after)
        → r.pending ≡ reading
        → t ≡ record s {
          world = (on_read in_thread (over r thread s.world) (inl ec)).world.1;
          sessions = before ++ (on_read in_thread (over r thread s.world) (inl ec) ∷ after);
        }
        → Step s t
    wrote :
        (thread : ℕ) (failed : Bool) (before after : List Running) (r : Running)
        → s.sessions ≡ before ++ (r ∷ after)
        → r.pending ≡ writing
        → t ≡ record s {
          world = (on_write in_thread (over r thread s.world) failed).world.1;
          sessions = before ++ (on_write in_thread (over r thread s.world) failed ∷ after);
        }
        → Step s t

  pub data Reach (s : Serving) : Serving → Type 0 where
    here : Reach s s
    next : {t u : Serving} → Reach s t → Step t u → Reach s u

  abbrev pub opening : W → Serving
  opening w = record { world = w; sessions = []; served = [] }

  -- The response is the answer to a request that was handled, at its place among the others.
  pub record Answers (w : W) (served : List (ℕ × Request)) (response : Response) : Type 0 where
    pub thread : ℕ
    pub request : Request
    pub earlier : List (ℕ × Request)
    pub later : List (ℕ × Request)
    pub split : served ≡ earlier ++ ((thread, request) ∷ later)
    pub same :
        response ≡ (answered_by check write thread request (serve_all check write earlier w)).0

  -- A session that writes, writes such a response.
  abbrev pub IsAnswering : W → List (ℕ × Request) → Running → Type 0
  IsAnswering w served r =
      r.pending ≡ writing
      → (response : Response) × (r.response ≡ some response) × Answers w served response

  pub record Serialized (w : W) (s : Serving) : Type 0 where
    pub handled : s.world ≡ serve_all check write s.served w
    pub answering : All (IsAnswering w s.served) s.sessions

  later-Answers :
      (w : W) (served : List (ℕ × Request)) (x : ℕ × Request) (response : Response)
      → Answers w served response
      → Answers w (served ++ (x ∷ [])) response
  later-Answers w served x response a = record {
    thread = a.thread;
    request = a.request;
    earlier = a.earlier;
    later = a.later ++ (x ∷ []);
    split =
        ap (λ (l : List (ℕ × Request)). l ++ (x ∷ [])) a.split
        ∙ append_assoc a.earlier ((a.thread, a.request) ∷ a.later) (x ∷ []);
    same = a.same;
  }

  later-IsAnswering :
      (w : W) (served : List (ℕ × Request)) (x : ℕ × Request) (rs : List Running)
      → All (IsAnswering w served) rs
      → All (IsAnswering w (served ++ (x ∷ []))) rs
  later-IsAnswering w served x [] h = tt
  later-IsAnswering w served x (r ∷ rs) h = (
    λ e. let (response, is, a) = h.0 e in (response, is, later-Answers w served x response a),
    later-IsAnswering w served x rs h.1,
  )

  -- One session is replaced by its next state.
  replaced :
      (P : Running → Type 0) (rs before after : List Running) (r u : Running)
      → rs ≡ before ++ (r ∷ after)
      → All P rs
      → P u
      → All P (before ++ (u ∷ after))
  replaced P rs before after r u e h p = go before (subst (All P) e h)
    where
      go : (bs : List Running) → All P (bs ++ (r ∷ after)) → All P (bs ++ (u ∷ after))
      go [] k = (p, k.1)
      go (b ∷ bs) k = (k.0, go bs k.1)

  carried :
      (thread : ℕ) (q : Request) (w : W)
      → handle_request in_thread q (thread, w)
        ≡ ((answered_by check write thread q w).0, (thread, (answered_by check write thread q w).1))
  carried thread q w =
      handle_request-carried (handle check (write thread)) in_thread thread w q refl

  received-Serialized :
      (w : W) (s : Serving) (thread : ℕ) (q : Request) (before after : List Running) (r : Running)
      → s.sessions ≡ before ++ (r ∷ after)
      → Serialized w s
      → Serialized w (record {
        world = (on_read in_thread (over r thread s.world) (inr q)).world.1;
        sessions = before ++ (on_read in_thread (over r thread s.world) (inr q) ∷ after);
        served = s.served ++ ((thread, q) ∷ []);
      })
  unfolding on_read
  received-Serialized w s thread q before after r e v =
      let asked = carried thread q s.world in
      record {
        handled =
            ap (λ (x : Response × (ℕ × W)). x.1.1) asked
            ∙ ap (λ (x : W). (answered_by check write thread q x).1) v.handled
            ∙ sym (serve_all-append check write s.served thread q w);
        answering =
            replaced (IsAnswering w (s.served ++ ((thread, q) ∷ []))) s.sessions before after r _ e
              (later-IsAnswering w s.served (thread, q) s.sessions v.answering)
              (λ _. (
                (handle_request in_thread q (thread, s.world)).0,
                refl,
                record {
                  thread = thread;
                  request = q;
                  earlier = s.served;
                  later = [];
                  split = refl;
                  same =
                      ap (λ (x : Response × (ℕ × W)). x.0) asked
                      ∙ ap (λ (x : W). (answered_by check write thread q x).0) v.handled;
                },
              ));
      }

  wrote-world : (r : Running) (failed : Bool) → (on_write in_thread r failed).world ≡ r.world
  unfolding on_write
  wrote-world r true = refl
  wrote-world r false = elim (Bool-cases (keeps_alive in_thread r.response)) [
    | inl alive ↦ rw alive refl
    | inr last ↦ rw last refl
  ]

  wrote-silent : (r : Running) (failed : Bool) → (on_write in_thread r failed).pending ≢ writing
  unfolding on_write
  wrote-silent r true h = cc
  wrote-silent r false h = elim (Bool-cases (keeps_alive in_thread r.response)) [
    | inl alive ↦ cc (rw alive at h)
    | inr last ↦ cc (rw last at h)
  ]

  Step-Serialized : (w : W) {s t : Serving} → Step s t → Serialized w s → Serialized w t
  unfolding run on_read
  Step-Serialized w {s} (connected thread endpoint r made e) v = rw e (record {
    handled = v.handled;
    answering = All-append (IsAnswering w s.served) s.sessions _ v.answering ((λ h. cc), tt);
  })
  Step-Serialized w {s} (received thread q before after r split reads e) v =
      rw e (received-Serialized w s thread q before after r split v)
  Step-Serialized w {s} (stopped thread ec before after r split reads e) v = rw e (record {
    handled = v.handled;
    answering =
        replaced (IsAnswering w s.served) s.sessions before after r _ split v.answering (λ h. cc);
  })
  Step-Serialized w {s} (wrote thread failed before after r split writes e) v = rw e (record {
    handled = ap (λ (x : ℕ × W). x.1) (wrote-world (over r thread s.world) failed) ∙ v.handled;
    answering =
        replaced (IsAnswering w s.served) s.sessions before after r _ split v.answering
          (λ h. absurd (wrote-silent (over r thread s.world) failed h));
  })

  -- Whatever sessions come, and however the operations that they await end, in whatever order and
  -- threads: the storage is as the requests leave it that were handled, one after the other, and
  -- what a session writes is the answer to one of them at its place in that order.
  pub Reach-Serialized : (w : W) {s : Serving} → Reach (opening w) s → Serialized w s
  unfolding serve_all
  Reach-Serialized w here = record { handled = refl; answering = tt }
  Reach-Serialized w (next r st) = Step-Serialized w st (Reach-Serialized w r)
