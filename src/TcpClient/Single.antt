-- ===== src/TcpClient/Single.antt =====
-- A client has one connection at a time.
use thread_and_net.Prelude.{
  ℕ, ◌+◌, ◌≡◌, ◌≢◌, inl, inr, refl, ap, sym, ◌∙◌, subst, Bool, true, false, ◌&&◌, Option, none,
  some, Option-cases, Bool-cases, List, [], ◌∷◌, ◌++◌, update, eq_opt, eq_opt-eq, length, arith,
  append-nil,
}
use thread_and_net.Connector
use thread_and_net.Connector.{Connector, Errno, disconnected}
use thread_and_net.Connector.Effects.{
  start_in_loop-disconnected, start-disconnected, handle_write-handed, handle_error-connected,
  run_queued-connected, stop-connected,
}
use thread_and_net.TcpConnection.{TcpConnection, create_conn, connect_established, shutdown}
use thread_and_net.TcpClient.{
  TcpClient, connect_destroyed, client_remove, init, enable_retry, connect, disconnect, stop,
  new_connection, remove_connection, connector_write, connector_error, connector_timer,
  connector_queued,
}

-- A call on the client: by its user, by its connection or its connector. A connection may change by
-- its own calls.
pub data Step (c : TcpClient) : TcpClient → Type 0 where
  connects : (fd : ℕ) (e : Errno) {d : TcpClient} → connect c fd e ≡ some d → Step c d
  disconnects : {d : TcpClient} → disconnect c ≡ some d → Step c d
  stops : Step c (stop c)
  enables_retry : Step c (enable_retry c)
  closes : (p fd : ℕ) (e : Errno) {d : TcpClient} → remove_connection c p fd e ≡ some d → Step c d
  writes :
      (err self : Bool) (p : ℕ) {d : TcpClient} → connector_write c err self p ≡ some d → Step c d
  errors : {d : TcpClient} → connector_error c ≡ some d → Step c d
  timer_fires : (fd : ℕ) (e : Errno) {d : TcpClient} → connector_timer c fd e ≡ some d → Step c d
  runs_queued : {d : TcpClient} → connector_queued c ≡ some d → Step c d
  changes :
      (p : ℕ) (t t' : TcpConnection)
      → c.heap p ≡ some t
      → Step c (record c { heap = update c.heap p (some t') })

pub data Reach (c : TcpClient) : TcpClient → Type 0 where
  here : Reach c c
  next : {d e : TcpClient} → Reach c d → Step d e → Reach c e

abbrev pub current : Option ℕ → List ℕ
current none = []
current (some p) = p ∷ []

pub record Inv (c : TcpClient) : Type 0 where
  pub one : c.accepted ≡ c.removed ++ current c.connection
  pub state : (p : ℕ) → c.connection ≡ some p → c.connector.state ≡ Connector.connected

-- A client whose connector is not connected has no connection.
idle-none : (c : TcpClient) → Inv c → c.connector.state ≢ Connector.connected → c.connection ≡ none
idle-none c i n = elim (Option-cases c.connection) [
  | inl e ↦ e
  | inr (p, e) ↦ absurd (n (i.state p e))
]

-- Only the connector changes.
with_connector :
    (c : TcpClient) (k : Connector)
    → Inv c
    → (c.connector.state ≡ Connector.connected → k.state ≡ Connector.connected)
    → Inv (record c { connector = k })
with_connector c k i keep = record { one = i.one; state = λ p e. keep (i.state p e) }

connect-Inv : (c d : TcpClient) (fd : ℕ) (e : Errno) → Inv c → connect c fd e ≡ some d → Inv d
unfolding connect
connect-Inv c d fd e i h = elim (Option-cases (Connector.start c.connector fd e)) [
  | inl n ↦ absurd (ground arith)
  | inr (k, s) ↦
      (let off : c.connector.state ≡ disconnected = (start-disconnected c.connector k fd e s).0 in
        let none_yet : c.connection ≡ none = idle-none c i (ground arith) in
        let out : TcpClient = record c { connected = true; connector = k } in
        let same : out ≡ d = ground arith in
        subst Inv same (record { one = i.one; state = λ p q. absurd (ground arith) }))
]

timer-Inv : (c d : TcpClient) (fd : ℕ) (e : Errno) → Inv c → connector_timer c fd e ≡ some d → Inv d
unfolding connector_timer
timer-Inv c d fd e i h = elim (Option-cases (Connector.start_in_loop c.connector fd e)) [
  | inl n ↦ absurd (ground arith)
  | inr (k, s) ↦
      (let off : c.connector.state ≡ disconnected =
          (start_in_loop-disconnected c.connector k fd e s).0 in
        let none_yet : c.connection ≡ none = idle-none c i (ground arith) in
        let same : record c { connector = k } ≡ d = ground arith in
        subst Inv same (record { one = i.one; state = λ p q. absurd (ground arith) }))
]

error-Inv : (c d : TcpClient) → Inv c → connector_error c ≡ some d → Inv d
unfolding connector_error
error-Inv c d i h = elim (Option-cases (Connector.handle_error c.connector)) [
  | inl n ↦ absurd (ground arith)
  | inr (k, s) ↦
      (let same : record c { connector = k } ≡ d = ground arith in
        subst Inv same (with_connector c k i (handle_error-connected c.connector k s).0))
]

queued-Inv : (c d : TcpClient) → Inv c → connector_queued c ≡ some d → Inv d
unfolding connector_queued
queued-Inv c d i h = elim (Option-cases (Connector.run_queued c.connector)) [
  | inl n ↦ absurd (ground arith)
  | inr (k, s) ↦
      (let same : record c { connector = k } ≡ d = ground arith in
        subst Inv same (with_connector c k i (run_queued-connected c.connector k s).0))
]

disconnect-Inv : (c d : TcpClient) → Inv c → disconnect c ≡ some d → Inv d
unfolding disconnect
disconnect-Inv c d i h = elim (Option-cases c.connection) [
  | inl n ↦
      (let same : record c { connected = false } ≡ d = ground arith in
        subst Inv same (record { one = i.one; state = i.state }))
  | inr (p, e) ↦ elim (Option-cases (c.heap p)) [
    | inl n ↦ absurd (ground arith)
    | inr (t, f) ↦
        (let out : TcpClient = record c {
          connected = false;
          heap = update c.heap p (some (shutdown true t));
        } in
          let same : out ≡ d = ground arith in
          subst Inv same (record { one = i.one; state = i.state }))
  ]
]

-- The removal of the connection, with what becomes of the connector
removed-Inv :
    (c : TcpClient) (p : ℕ) (k : Connector)
    → Inv c
    → c.connection ≡ some p
    → Inv (record c {
      connection = none;
      queued = c.queued ++ connect_destroyed p ∷ [];
      removed = c.removed ++ p ∷ [];
      connector = k;
    })
removed-Inv c p k i e = record {
  one = i.one ∙ ap (λ o. c.removed ++ current o) e ∙ sym (append-nil (c.removed ++ p ∷ []));
  state = λ q h. absurd (ground arith);
}

remove-Inv :
    (c d : TcpClient) (p fd : ℕ) (e : Errno) → Inv c → remove_connection c p fd e ≡ some d → Inv d
unfolding remove_connection
remove-Inv c d p fd e i h = elim (Bool-cases (eq_opt c.connection (some p))) [
  | inr wrong ↦ absurd (ground arith)
  | inl right ↦
      (let at = eq_opt-eq c.connection (some p) right in
        elim (Bool-cases (c.retry && c.connected)) [
          | inr quiet ↦ subst Inv (ground arith) (removed-Inv c p c.connector i at)
          | inl again ↦ elim (Option-cases (Connector.restart c.connector fd e)) [
            | inl n ↦ absurd (ground arith)
            | inr (k, s) ↦ subst Inv (ground arith) (removed-Inv c p k i at)
          ]
        ])
]

-- A new connection, when there is none.
made-Inv :
    (c d : TcpClient) (fd p : ℕ)
    → Inv c
    → c.connection ≡ none
    → c.connector.state ≡ Connector.connected
    → new_connection c fd p ≡ some d
    → Inv d
unfolding new_connection
made-Inv c d fd p i n s h = elim (Option-cases (connect_established (create_conn c.loop fd))) [
  | inl e ↦ absurd (ground arith)
  | inr (t, e) ↦
      (let out : TcpClient = record c {
        next_conn_id = c.next_conn_id + 1;
        connection = some p;
        heap = update c.heap p (some t);
        close_callbacks = update c.close_callbacks p client_remove;
        accepted = c.accepted ++ p ∷ [];
      } in
        let same : out ≡ d = ground arith in
        subst Inv same (record {
          one =
              ap (λ x. x ++ p ∷ [])
                (i.one ∙ ap (λ o. c.removed ++ current o) n ∙ append-nil c.removed);
          state = λ q e. s;
        }))
]

-- The connector's write event with a connector `k` after it: nothing was handed over, or `fd` was.
write-unmade :
    (c d : TcpClient) (err self : Bool) (p : ℕ) (k : Connector) (fds : List ℕ)
    → Connector.handle_write c.connector err self ≡ some k
    → k.handed ≡ fds
    → k.handed ≡ c.connector.handed
    → connector_write c err self p ≡ some d
    → record c { connector = k } ≡ d
unfolding connector_write
write-unmade c d err self p k [] s e f h = ground arith
write-unmade c d err self p k (fd ∷ fds) s e f h = ground (arith, ap length (sym f ∙ e))

write-made :
    (c d : TcpClient) (err self : Bool) (p : ℕ) (k : Connector) (fd : ℕ)
    → Connector.handle_write c.connector err self ≡ some k
    → k.handed ≡ fd ∷ c.connector.handed
    → connector_write c err self p ≡ some d
    → new_connection (record c { connector = k }) fd p ≡ some d
unfolding connector_write
write-made c d err self p k fd s e h = ground arith

write-none :
    (c d : TcpClient) (err self : Bool) (p : ℕ)
    → Connector.handle_write c.connector err self ≡ none
    → connector_write c err self p ≢ some d
unfolding connector_write
write-none c d err self p n h = ground arith

write-Inv :
    (c d : TcpClient) (err self : Bool) (p : ℕ)
    → Inv c
    → connector_write c err self p ≡ some d
    → Inv d
write-Inv c d err self p i h = elim (Option-cases (Connector.handle_write c.connector err self)) [
  | inl n ↦ absurd (write-none c d err self p n h)
  | inr (k, s) ↦
      (let (off, r) = handle_write-handed c.connector k err self s in
        let none_yet = idle-none c i off in
        let c' : TcpClient = record c { connector = k } in
        let i' : Inv c' = record { one = i.one; state = λ q e. absurd (ground arith) } in
        elim r [
          | inr (fd, made, now) ↦
              made-Inv c' d fd p i' none_yet now (write-made c d err self p k fd s made h)
          | inl same ↦ subst Inv (write-unmade c d err self p k k.handed s refl same h) i'
        ])
]

Step-Inv : {c d : TcpClient} → Step c d → Inv c → Inv d
unfolding stop enable_retry
Step-Inv {c} {d} (connects fd e h) i = connect-Inv c d fd e i h
Step-Inv {c} {d} (disconnects h) i = disconnect-Inv c d i h
Step-Inv {c} stops i = record {
  one = i.one;
  state = λ p e. (stop-connected c.connector).0 ∙ i.state p e;
}
Step-Inv enables_retry i = record { one = i.one; state = i.state }
Step-Inv {c} {d} (closes p fd e h) i = remove-Inv c d p fd e i h
Step-Inv {c} {d} (writes err self p h) i = write-Inv c d err self p i h
Step-Inv {c} {d} (errors h) i = error-Inv c d i h
Step-Inv {c} {d} (timer_fires fd e h) i = timer-Inv c d fd e i h
Step-Inv {c} {d} (runs_queued h) i = queued-Inv c d i h
Step-Inv (changes p t t' at) i = record { one = i.one; state = i.state }

pub Reach-Inv : {c d : TcpClient} → Inv c → Reach c d → Inv d
Reach-Inv i here = i
Reach-Inv i (next r m) = Step-Inv m (Reach-Inv i r)

pub init-Inv : (loop : ℕ) → Inv (init loop)
unfolding init
init-Inv loop = record { one = refl; state = λ p e. absurd (ground arith) }

-- A client has one connection at a time: in every state that a new client reaches, the connections
-- that were made are those that were removed, in the order of their removal, and then the current
-- one, if there is one.
pub Reach-one :
    (loop : ℕ) {c : TcpClient}
    → Reach (init loop) c
    → c.accepted ≡ c.removed ++ current c.connection
Reach-one loop r = (Reach-Inv (init-Inv loop) r).one
