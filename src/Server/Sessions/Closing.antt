-- ===== src/Server/Sessions/Closing.antt =====
-- `handle_connection_closed` as one change of state: it never throws, whatever the handlers do.
use co_bridge.Base.{
  ℕ, String, List, [], ◌∷◌, Bool, true, false, not, ◌&&◌, Option, none, some, if◌then◌else◌, ◌≡◌,
  refl, ap, ◌∙◌, Bool-cases, Option-cases, inl, inr, nat_keys, text_keys, is_empty,
}
use co_bridge.Base.Assoc.{find, erase}
use co_bridge.Base.Int.{decrement}
use co_bridge.Base.Errors.{Exception, What, standard, bad_function_call}
use co_bridge.Base.Action.{
  Outcome, returned, thrown, pure, gets, modify, ◌>>=◌, ◌>>◌, try_catch, for_each,
}
use co_bridge.Server.Types
use co_bridge.Server.Types.{
  Server, ServerAction, Event, ClientInfo, HandlerCall, StatusLevel, StatusText,
}
use co_bridge.Server.Environment.{Environment, call_handler, send_json, send_status, handler_of}
use co_bridge.Server.Graph.{count_by}
use co_bridge.Server.Parameters.{
  unsubscribe_params_without_subscriptions, notify_unsubscribed, what_of,
}
use co_bridge.Server.Sessions.{quiet_call, leave_graph, close_client, handle_connection_closed}

-- `m` returns on every state, and the state is `f s` but for the trace.
pub record Performs (m : ServerAction Unit) (f : Server → Server) : Type 0 where
  pub at : (s : Server) → (t : List Event) × (m s ≡ (returned tt, record (f s) { trace = t }))

abbrev same : Server → Server
same s = s

-- `f` neither reads nor writes the trace.
abbrev IgnoresTrace : (Server → Server) → Type 0
IgnoresTrace f =
    (s : Server) (t t' : List Event)
    → ◌≡◌ {A = Server} (record (f (record s { trace = t })) { trace = t' })
        (record (f s) { trace = t' })

Performs-pure : Performs (pure tt) same
unfolding pure
Performs-pure = record { at = λ s. (s.trace, refl) }

Performs-modify :
    (f : Server → Server) → ((s : Server) → (f s).trace ≡ s.trace) → Performs (modify f) f
unfolding modify
Performs-modify f h = record { at = λ s. ((f s).trace, refl) }

Performs-then :
    {m n : ServerAction Unit} {f g : Server → Server}
    → IgnoresTrace g
    → Performs m f
    → Performs n g
    → Performs (m >> n) (λ s. g (f s))
unfolding ◌>>=◌
Performs-then {f = f} {g = g} i pm pn = record {
  at = λ s.
      let (t, e) = pm.at s in
      let (t', e') = pn.at (record (f s) { trace = t }) in
      (t', rw e (e' ∙ ap (λ x. (returned tt, x)) (i (f s) t t')));
}

Performs-if :
    (b : Bool) {m n : ServerAction Unit} {f : Server → Server}
    → Performs m f
    → Performs n f
    → Performs (if b then m else n) f
Performs-if true pm pn = pm
Performs-if false pm pn = pn

-- A read does not change what the rest performs.
Performs-gets :
    {A : Type 0} (h : Server → A) {m : A → ServerAction Unit} {f : Server → Server}
    → ((a : A) → Performs (m a) f)
    → Performs (gets h >>= m) f
unfolding ◌>>=◌
Performs-gets h p = record { at = λ s. (p (h s)).at s }

-- The count of graph subscriptions, one less if the client was marked.
abbrev pub left : Bool → Server → Server
left b s = count_by (λ n. if b then decrement n else n) s

-- What is left to erase once the client is erased, and once its channels are.
abbrev pub without_params : ℕ → Bool → Server → Server
without_params hdl b s =
    left b (record s { client_param_subscriptions = erase hdl s.client_param_subscriptions })

abbrev pub without_channels : ℕ → Bool → Server → Server
without_channels hdl b s =
    without_params hdl b (record s { client_channels = erase hdl s.client_channels })

-- The server after a client is closed: everything that was kept under its handle is gone.
abbrev pub closed : ℕ → ClientInfo → Server → Server
closed hdl c s =
    without_channels hdl c.subscribed_to_connection_graph
      (record s { clients = erase hdl s.clients })

module _ (env : Environment) where
  pub Performs-send_json : (hdl : ℕ) (msg : Types.Outgoing) → Performs (send_json env hdl msg) same
  unfolding send_json
  Performs-send_json hdl msg = record {
    at = λ s. elim (Bool-cases (env.connected s.trace hdl)) [
      | inl there ↦ (Types.sent hdl msg ∷ s.trace, rw there)
      | inr gone ↦ (s.trace, rw gone)
    ];
  }

  -- A handler call returns or throws, and writes to the trace alone.
  pub call_handler_cases :
      (call : HandlerCall) (s : Server)
      → (o : Outcome Unit) × (t : List Event) × (call_handler env call s
          ≡ (o, record s { trace = t }))
  unfolding call_handler
  call_handler_cases call s = elim (Bool-cases (s.handlers (handler_of call))) [
    | inl there ↦ elim (Option-cases (env.answer s.trace call)) [
      | inl fine ↦ (returned tt, Types.called call ∷ s.trace, rw (there, fine))
      | inr (x, e) ↦ (thrown x, Types.called call ∷ s.trace, rw (there, e))
    ]
    | inr empty ↦ (thrown (standard bad_function_call), s.trace, rw empty)
  ]

  Performs-try_catch :
      (call : HandlerCall) (h : Exception → ServerAction Unit)
      → ((x : Exception) → Performs (h x) same)
      → Performs (try_catch (call_handler env call) h) same
  unfolding try_catch
  Performs-try_catch call h p = record {
    at = λ s. let (o, t, e) = call_handler_cases call s in go s o t e;
  }
    where
      go :
          (s : Server) (o : Outcome Unit) (t : List Event)
          → call_handler env call s ≡ (o, record s { trace = t })
          → (t' : List Event) × (try_catch (call_handler env call) h s
              ≡ (returned tt, record s { trace = t' }))
      go s (returned tt) t e = (t, rw e)
      go s (thrown x) t e = let (t', e') = (p x).at (record s { trace = t }) in (t', rw e e')

  Performs-quiet_call : (call : HandlerCall) → Performs (quiet_call env call) same
  unfolding quiet_call
  Performs-quiet_call call =
      Performs-gets _ λ handled.
        Performs-if handled (Performs-try_catch call _ (λ x. Performs-pure)) Performs-pure

  Performs-for_each :
      {A : Type 0} (xs : List A) (call : A → HandlerCall)
      → Performs (for_each xs (λ a. quiet_call env (call a))) same
  unfolding for_each
  Performs-for_each [] call = Performs-pure
  Performs-for_each (a ∷ as') call =
      Performs-then (λ s t t'. refl) (Performs-quiet_call (call a)) (Performs-for_each as' call)

  Performs-send_status :
      (hdl : ℕ) (level : StatusLevel) (text : StatusText)
      → Performs (send_status env hdl level text) same
  unfolding send_status
  Performs-send_status hdl level text = Performs-send_json hdl _

  pub Performs-unsubscribe_params :
      (hdl : ℕ) (names : List String)
      → Performs (unsubscribe_params_without_subscriptions env hdl names) same
  unfolding unsubscribe_params_without_subscriptions notify_unsubscribed
  Performs-unsubscribe_params hdl names = Performs-gets _ λ unused. Performs-gets _ λ handled.
      Performs-if (handled && not (is_empty unused))
        (Performs-try_catch _ _ (λ x. reported x (what_of x))) Performs-pure
    where
      reported :
          (x : Exception) (w : Option What)
          → Performs
              (elim w [
                | some w' ↦ send_status env hdl Types.StatusLevel.error (Types.what_text w')
                | none ↦ send_status env hdl Types.StatusLevel.error Types.unsubscribe_failed
              ])
              same
      reported x (some w) = Performs-send_status hdl _ _
      reported x none = Performs-send_status hdl _ _

  Performs-leave_graph : (b : Bool) → Performs (leave_graph env b) (left b)
  unfolding leave_graph pure
  Performs-leave_graph false = record { at = λ s. (s.trace, refl) }
  Performs-leave_graph true =
      Performs-then (λ s t t'. refl) (Performs-modify (count_by decrement) (λ s. refl))
        (Performs-gets _ λ last. Performs-if last (Performs-quiet_call _) Performs-pure)

  pub close_client-Performs :
      (hdl : ℕ) (c : ClientInfo) → Performs (close_client env hdl c) (closed hdl c)
  unfolding close_client
  close_client-Performs hdl c =
      let b : Bool = c.subscribed_to_connection_graph in
      Performs-then {g = without_channels hdl b} (λ s t t'. refl) (Performs-modify _ (λ s. refl))
        (Performs-then {f = same} {g = without_channels hdl b} (λ s t t'. refl)
          (Performs-for_each c.advertised_channels (λ id. Types.on_client_unadvertise id hdl))
          (Performs-then {g = without_params hdl b} (λ s t t'. refl) (Performs-modify _ (λ s. refl))
            (Performs-then {f = same} {g = without_params hdl b} (λ s t t'. refl)
              (Performs-for_each c.subscriptions_by_channel (λ e. Types.on_unsubscribe e.0 hdl))
              (Performs-gets _ λ names.
                Performs-then {g = left b} (λ s t t'. refl) (Performs-modify _ (λ s. refl))
                  (Performs-then {f = same} {g = left b} (λ s t t'. refl)
                    (Performs-unsubscribe_params hdl names) (Performs-leave_graph b))))))

  pub close_client_keeps :
      (P : Server → Type 0) (hdl : ℕ) (c : ClientInfo) (s : Server)
      → ((t : List Event) → P (record (closed hdl c s) { trace = t }))
      → P (close_client env hdl c s).1
  close_client_keeps P hdl c s p = let (t, e) = (close_client-Performs hdl c).at s in rw e (p t)

  -- Closing a client that is known always returns, whatever the handlers throw, and erases all that
  -- is kept for it: its entry, its publications, its parameters and its graph subscription.
  pub handle_connection_closed_completes :
      (hdl : ℕ) (s : Server) (c : ClientInfo)
      → find hdl s.clients ≡ some c
      → (t : List Event) × (handle_connection_closed env hdl s
          ≡ (returned tt, record (closed hdl c s) { trace = t }))
  unfolding handle_connection_closed ◌>>=◌
  handle_connection_closed_completes hdl s c found = rw found ((close_client-Performs hdl c).at s)
