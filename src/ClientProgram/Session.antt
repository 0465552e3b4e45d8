-- ===== src/ClientProgram/Session.antt =====
-- What the client says over its connection, and what it leaves open.
use socket_dispatcher.Prelude.{
  ℕ, ◌≡◌, refl, ap, ◌∙◌, ◌≢◌, ◌⊎◌, inl, inr, true, false, Option, none, some, List, [], ◌∷◌,
  if-both, All, ℤ, is_negative, minus_one, ==ℤ_refl, Bytes, codes, c_string,
}
use socket_dispatcher.Socket.{ssl, ssl_socket, fresh_socket}
use socket_dispatcher.World.{
  Ref, Trace, bio_read, bio_write, close, ssl_free, af_inet, get_host_by_name, Os, World, ok, halt,
  released_twice, call,
}
use socket_dispatcher.World.Ledger.{open_descriptors, take_out}
use socket_dispatcher.SocketUtils.{read, write_message, destroy}
use socket_dispatcher.SocketUtils.Tls.{
  IsTls, fresh_socket-IsTls, read-IsTls, write_message-IsTls, destroy-IsTls,
}
use socket_dispatcher.Ssl.{SslGlobals, create_client_context}
use socket_dispatcher.SocketFactory.{require_context}
use socket_dispatcher.SocketFactory.Connection.{
  Balanced, MayRefuseHandshake, create_ssl_connection-Balances,
}
use socket_dispatcher.ClientProgram.{chat, talk, client_main, converse, client_port}

-- The calls of the loop on a TLS socket: before each message something is read, and the farewell is
-- the last message.
abbrev pub chat_calls : ℤ → List Bytes → Trace → Trace
chat_calls fd [] t = bio_write fd (codes "EXIT") ∷ bio_read fd 1024 ∷ t
chat_calls fd (word ∷ words) t = chat_calls fd words (bio_write fd word ∷ bio_read fd 1024 ∷ t)

-- A word that `std::cin` gives is not empty.
abbrev pub IsWord : Bytes → Type 0
IsWord word = word ≢ []

-- One turn of the loop: something is read, then one message is written.
abbrev turned : Os → Ref → Bytes → World → World
turned os r m w = (write_message os r m (read os r 1024 w).1).1

turned-IsTls :
    (os : Os) (r : Ref) (fd : ℤ) (m : Bytes) (w : World)
    → IsTls fd (w.cell r)
    → turned os r m w ≡ call (bio_write fd m) (call (bio_read fd 1024) w)
turned-IsTls os r fd m w h =
    ap (λ (x : World). (write_message os r m x).1) (read-IsTls r fd w h os 1024)
    ∙ write_message-IsTls r fd (call (bio_read fd 1024) w) h os m

chat-calls :
    (os : Os) (r : Ref) (fd : ℤ) (words : List Bytes) (w : World)
    → IsTls fd (w.cell r)
    → All IsWord words
    → chat os r words w ≡ record w { trace = chat_calls fd words w.trace }
unfolding chat
chat-calls os r fd [] w h a = turned-IsTls os r fd (codes "EXIT") w h
chat-calls os r fd ([] ∷ words) w h a = absurd (a.0 refl)
chat-calls os r fd ((b ∷ bs) ∷ words) w h a =
    let e = turned-IsTls os r fd (b ∷ bs) w h in
    rw e (chat-calls os r fd words (call (bio_write fd (b ∷ bs)) (call (bio_read fd 1024) w)) h a.1)

open_descriptors-chat_calls :
    (os : Os) (fd : ℤ) (words : List Bytes) (t : Trace)
    → open_descriptors os (chat_calls fd words t) ≡ open_descriptors os t
open_descriptors-chat_calls os fd [] t = refl
open_descriptors-chat_calls os fd (word ∷ words) t =
    open_descriptors-chat_calls os fd words (bio_write fd word ∷ bio_read fd 1024 ∷ t)

-- How the client ends: with 1 and nothing left open, or with 0, after all words and the farewell
-- over one connection, which is then closed: nothing is left open either.
abbrev pub Ends : Os → List Bytes → World → ℕ × World → Type 0
Ends os words w (code, w') =
    (open_descriptors os w'.trace ≡ open_descriptors os w.trace)
    × ((code ≡ 1)
        ⊎ ((code ≡ 0)
            × (fd : ℤ) × (t : Trace) × (w'.trace ≡ close fd ∷ ssl_free fd ∷ chat_calls fd words t)))

talk-Ends :
    (os : Os) (words : List Bytes) (fd : ℤ) (w : World) (x : Option Ref × World)
    → All IsWord words
    → Balanced os (fresh_socket ssl_socket fd ssl false) w x
    → Ends os words w (talk os words x.0 x.1)
unfolding talk
talk-Ends os words fd w (none, w') a h = (h, inl refl)
talk-Ends os words fd w (some r, w') a (o, n, c) =
    let tls = fresh_socket-IsTls fd (w'.cell r) c in
    let told = record w' { trace = chat_calls fd words w'.trace } in
    let e =
      ap (λ (x : World). (destroy r x).trace) (chat-calls os r fd words w' tls a)
      ∙ ap (λ (x : World). x.trace) (destroy-IsTls r fd told tls) in
    let freed =
      ap (take_out fd) (open_descriptors-chat_calls os fd words w'.trace ∙ o) ∙ rw (==ℤ_refl fd) in
    (ap (open_descriptors os) e ∙ freed, inr (refl, fd, w'.trace, e))

create_client_context-Ledger :
    (os : Os) (g : SslGlobals) (w : World)
    → open_descriptors os (create_client_context os g w).2.trace ≡ open_descriptors os w.trace
unfolding create_client_context
create_client_context-Ledger os g w =
    if-both
      (λ (x : ℕ × SslGlobals × World). open_descriptors os x.2.trace ≡ open_descriptors os w.trace)
      g.context refl refl

-- With a TLS context, on a system whose `socket` returns a descriptor or -1, and where no word that
-- is typed is empty, the client returns: with the code 1 and nothing left open, or with the code 0,
-- after it has said all words and then the farewell over one connection, having read before each,
-- and closed the connection as its last call; nothing is left open then either. Otherwise it
-- releases the BIO of its connection twice, which it does only where `SSL_connect` refuses the
-- handshake on the new descriptor.
pub client_main-Ends :
    (os : Os) (words : List Bytes) (g : SslGlobals) (w : World)
    → let created = create_client_context os g w in
      let fd = os.opened (get_host_by_name (codes "localhost") ∷ created.2.trace) af_inet in
      created.1.context ≡ true
      → (is_negative fd ≡ true → fd ≡ minus_one)
      → All IsWord words
      → ((code : ℕ) × (w' : World) × (client_main os words g w ≡ ok (code, created.1, w'))
          × Ends os words w (code, w'))
        ⊎ ((client_main os words g w ≡ halt released_twice) × MayRefuseHandshake os fd)
unfolding client_main converse require_context c_string
client_main-Ends os words g w h valid a =
    let created = create_client_context os g w in
    let fd = os.opened (get_host_by_name (codes "localhost") ∷ created.2.trace) af_inet in
    let same = create_client_context-Ledger os g w in
    elim (create_ssl_connection-Balances os (codes "localhost") client_port created.2 valid) [
      | inl (x, e, b) ↦
          let done = talk-Ends os words fd created.2 x a b in
          inl (
            (talk os words x.0 x.1).0,
            (talk os words x.0 x.1).1,
            rw (client_main, h, require_context) (rw (converse, e) refl),
            (done.0 ∙ same, done.1),
          )
      | inr (e, refused) ↦
          inr (rw (client_main, h, require_context) (rw (converse, e) refl), refused)
    ]
