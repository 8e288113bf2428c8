-- ===== src/Link/Mcmq/Setup.antt =====
-- `PCIeLinkMcmq::init` of pcie_link_mcmq.cpp. What the socket calls return is the `Sockets`.
use mcmqhost.Prelude.{
  ℕ, ◌≡◌, refl, Bool, true, false, List, [], ◌∷◌, Option, none, some, ◌==◌, if◌then◌else◌,
}

-- The port that the host listens on; the context id is VMADDR_CID_HOST.
abbrev pub vsock_port : ℕ
vsock_port = 9999

-- The results of one run: descriptors, the status of `bind` and of `listen`, and the connection that
-- `accept` gives, `none` for -1.
pub record Sockets : Type 0 where
  pub socket : ℕ
  pub bind : ℕ → ℕ → ℕ
  pub listen : ℕ → ℕ
  pub accept : ℕ → Option ℕ

-- -1 is `none`; `opened` are the descriptors that were opened and not closed, newest first.
pub record Endpoint : Type 0 where
  pub sock_fd : Option ℕ
  pub peer_fd : Option ℕ
  pub opened : List ℕ

abbrev pub new_endpoint : Endpoint
new_endpoint = record { sock_fd = none; peer_fd = none; opened = [] }

abbrev accepted : ℕ → Option ℕ → Endpoint → Bool × Endpoint
accepted fd none l = (false, l)
accepted fd (some pfd) l =
    (true, record l { sock_fd = some fd; peer_fd = some pfd; opened = pfd ∷ l.opened })

abbrev open_socket : Sockets → Endpoint → Bool × Endpoint
open_socket os l =
    let fd = os.socket in
    let opened = record l { opened = fd ∷ l.opened } in
    if os.bind fd vsock_port == 0
    then (if os.listen fd == 0 then accepted fd (os.accept fd) opened else (false, opened))
    else (false, opened)

unfoldable pub init : Sockets → Endpoint → Bool × Endpoint
init os l = elim l.sock_fd [ some fd ↦ (true, l) | none ↦ open_socket os l ]

-- What `init` of a link that is not connected comes to: it is connected, or as it was but for the
-- socket, which stays open.
abbrev pub Attempt : Sockets → Endpoint → Bool × Endpoint → Type 0
Attempt os l (true, l') =
    (pfd : ℕ) × (os.accept os.socket ≡ some pfd)
    × (l' ≡ record l {
      sock_fd = some os.socket;
      peer_fd = some pfd;
      opened = pfd ∷ os.socket ∷ l.opened;
    })
Attempt os l (false, l') = l' ≡ record l { opened = os.socket ∷ l.opened }

Attempt-accepted :
    (os : Sockets) (l : Endpoint) (got : Option ℕ)
    → os.accept os.socket ≡ got
    → Attempt os l (accepted os.socket got (record l { opened = os.socket ∷ l.opened }))
Attempt-accepted os l none e = refl
Attempt-accepted os l (some pfd) e = (pfd, e, refl)

Attempt-if :
    (os : Sockets) (l : Endpoint) (b : Bool) (r : Bool × Endpoint)
    → Attempt os l r
    → Attempt os l (if b then r else (false, record l { opened = os.socket ∷ l.opened }))
Attempt-if os l true r a = a
Attempt-if os l false r a = refl

-- `init` of a link that is not connected either connects it, with the socket and the connection that
-- it keeps, or fails and leaves it as it was but for the socket, which nothing closes.
pub init-Attempt : (os : Sockets) (l : Endpoint) → l.sock_fd ≡ none → Attempt os l (init os l)
unfolding init
init-Attempt os l closed =
    let bare = record l { sock_fd = none } in
    let fd = os.socket in
    rw closed (
      Attempt-if os bare (os.bind fd vsock_port == 0) _
        (Attempt-if os bare (os.listen fd == 0) _ (Attempt-accepted os bare (os.accept fd) refl)))

init-connected :
    (os : Sockets) (l : Endpoint) (fd : ℕ) → l.sock_fd ≡ some fd → init os l ≡ (true, l)
unfolding init
init-connected os l fd known = rw known refl

again :
    (os next : Sockets) (l : Endpoint) (r : Bool × Endpoint)
    → Attempt os l r
    → r.0 ≡ true
    → init next r.1 ≡ (true, r.1)
again os next l (true, l') (pfd, e, is) ok = rw is (
    init-connected next
      (record l {
        sock_fd = some os.socket;
        peer_fd = some pfd;
        opened = pfd ∷ os.socket ∷ l.opened;
      })
      os.socket refl)
again os next l (false, l') a ok = cc

-- A second `init` of a link that the first has connected succeeds and changes nothing.
pub init-init :
    (os next : Sockets) (l : Endpoint)
    → l.sock_fd ≡ none
    → (init os l).0 ≡ true
    → init next (init os l).1 ≡ (true, (init os l).1)
init-init os next l closed ok = again os next l (init os l) (init-Attempt os l closed) ok
