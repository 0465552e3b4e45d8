-- ===== src/SocketFactory/Connection.antt =====
-- The factory that connects: what it leaves open where it fails.
use socket_dispatcher.Prelude.{
  ℕ, ◌≡◌, refl, ap, ◌∙◌, ◌⊎◌, inl, inr, true, false, Option, none, some, [], ◌∷◌, ==_refl, if-both,
  if-cases, ℤ, pos, negsuc, ◌==ℤ◌, is_negative, is_positive, minus_one, ==ℤ_iff, ==ℤ_refl, Bytes,
  c_string,
}
use socket_dispatcher.Socket.{Socket, ssl, ssl_socket, fresh_socket, new_socket}
use socket_dispatcher.World.{
  Ref, Trace, af_inet, host, Os, World, open_socket, connect, get_host_by_name, bio_new_socket,
  close, call, Result, ok, halt, released_twice,
}
use socket_dispatcher.World.Ledger.{open_descriptors, enter, take_out}
use socket_dispatcher.SocketFactory.{
  make_object, connect_ssl, connect_to, connect_resolved, create_ssl_connection, uint16,
}

-- A new socket with its descriptor open, or no socket and nothing left open.
abbrev pub Balanced : Os → Socket → World → Option Ref × World → Type 0
Balanced os s w (none, w') = open_descriptors os w'.trace ≡ open_descriptors os w.trace
Balanced os s w (some r, w') =
    (open_descriptors os w'.trace ≡ s.descriptor ∷ open_descriptors os w.trace)
    × (r ≡ w.next)
    × (w'.cell r ≡ s)

-- `SSL_connect` refuses the handshake on `fd`.
abbrev pub MayRefuseHandshake : Os → ℤ → Type 0
MayRefuseHandshake os fd = (t : Trace) × (is_positive (os.ssl_connected t fd) ≡ false)

-- A balanced return, or the end by a double release where the handshake is refused.
abbrev pub Balances : Os → Socket → World → Result (Option Ref × World) → Type 0
Balances os s w m =
    ((x : Option Ref × World) × (m ≡ ok x) × Balanced os s w x)
    ⊎ ((m ≡ halt released_twice) × MayRefuseHandshake os s.descriptor)

-- A result that leaves its descriptor open is balanced if it is a socket.
connect_ssl-Balances :
    (os : Os) (fd : ℤ) (w w₀ : World)
    → is_negative fd ≡ false
    → open_descriptors os w.trace ≡ fd ∷ open_descriptors os w₀.trace
    → w.next ≡ w₀.next
    → Balances os (fresh_socket ssl_socket fd ssl false) w₀ (connect_ssl os fd w)
unfolding connect_ssl make_object new_socket
connect_ssl-Balances os (negsuc n) w w₀ h o q = cc
connect_ssl-Balances os (pos n) w w₀ h o q =
    let w₁ = call (bio_new_socket (pos n)) w in
    if-cases (Balances os (fresh_socket ssl_socket (pos n) ssl false) w₀)
      (is_positive (os.ssl_connected (w₁.trace) (pos n)))
      (λ shaken. inl ((some w.next, _), refl, (o, q, rw (==_refl w.next))))
      (λ refused. inr (refl, (w₁.trace, refused)))

real_descriptor :
    (fd : ℤ)
    → (is_negative fd ≡ true → fd ≡ minus_one)
    → (fd ==ℤ minus_one) ≡ false
    → is_negative fd ≡ false
real_descriptor (pos n) valid h = refl
real_descriptor (negsuc n) valid h = let e = (==ℤ_iff (negsuc n) minus_one).1 (valid refl) in cc

connect_to-Balances :
    (os : Os) (address : Bytes) (port : ℕ) (w : World)
    → let fd = os.opened w.trace af_inet in
      (is_negative fd ≡ true → fd ≡ minus_one)
      → Balances os (fresh_socket ssl_socket fd ssl false) w (connect_to os address port w)
unfolding connect_to
connect_to-Balances os address port w valid =
    let fd = os.opened w.trace af_inet in
    let w₁ = call (open_socket af_inet) w in
    let w₂ = call (connect fd (host address port)) w₁ in
    let P = Balances os (fresh_socket ssl_socket fd ssl false) w in
    if-cases P (fd ==ℤ minus_one)
      (λ failed.
        let e : fd ≡ minus_one = (==ℤ_iff fd minus_one).0 failed in
        inl ((none, w₁), refl, ap (λ (x : ℤ). enter x (open_descriptors os w.trace)) e))
      λ opened.
        let real = real_descriptor fd valid opened in
        let o : open_descriptors os w₁.trace ≡ fd ∷ open_descriptors os w.trace = rw real in
        if-both P (os.connected w₁.trace fd (host address port) ==ℤ pos 0)
          (connect_ssl-Balances os fd w₂ w real o refl)
          (inl ((none, call (close fd) w₂), refl, ap (take_out fd) o ∙ rw (==ℤ_refl fd)))

connect_resolved-Balances :
    (os : Os) (resolved : Option Bytes) (port : ℕ) (w : World)
    → let fd = os.opened w.trace af_inet in
      (is_negative fd ≡ true → fd ≡ minus_one)
      → Balances os (fresh_socket ssl_socket fd ssl false) w (connect_resolved os resolved port w)
unfolding connect_resolved
connect_resolved-Balances os none port w valid = inl ((none, w), refl, refl)
connect_resolved-Balances os (some []) port w valid = inl ((none, w), refl, refl)
connect_resolved-Balances os (some (b ∷ bs)) port w valid =
    connect_to-Balances os (b ∷ bs) port w valid

-- On a system whose `socket` returns a descriptor or -1, the connecting factory returns a new TLS
-- socket, with exactly its descriptor open in addition; or no socket, with nothing left open, where
-- it fails to resolve, to open a socket or to connect; or it releases the BIO twice, which it does
-- only where `SSL_connect` refuses the handshake on the new descriptor.
pub create_ssl_connection-Balances :
    (os : Os) (name : Bytes) (port : ℕ) (w : World)
    → let fd = os.opened (get_host_by_name (c_string name) ∷ w.trace) af_inet in
      (is_negative fd ≡ true → fd ≡ minus_one)
      → Balances os (fresh_socket ssl_socket fd ssl false) w (create_ssl_connection os name port w)
unfolding create_ssl_connection
create_ssl_connection-Balances os name port w valid =
    connect_resolved-Balances os (os.host_resolved w.trace (c_string name)) (uint16 port)
      (call (get_host_by_name (c_string name)) w) valid
