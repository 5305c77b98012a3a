-- ===== src/Web.antt =====
-- src/HttpServer.cpp: the configuration of a server and the chain of its middleware. The server,
-- the router and the handlers of the network library are parameters.
pub mod Proofs
use ii_server_host.Prelude.Text.{Text, text, is_empty}
use ii_server_host.Prelude.{
  ◌==◌, if◌then◌else◌, length, ℕ, ◌⊎◌, inl, inr, Bool, false, ◌||◌, not, Option, none, some, List,
  [], ◌∷◌, ◌++◌,
}

-- What the network library's server says of itself.
pub record Native : Type 0 where
  pub listening : Bool
  pub draining : Bool
  pub connections : ℕ
  pub error : Text

pub data WebError : Type 0 where
  invalid_state invalid_argument too_large : WebError
  of_router : Text → WebError

module _ (Request Response : Type 0) where
  abbrev pub Handler : Type 0
  Handler = Request → Response

  -- A middleware gets the request and the next handler.
  abbrev pub Middleware : Type 0
  Middleware = Request → (Request → Response) → Response

  pub record WebServer (Router : Type 0) : Type 0 where
    pub native : Native
    pub router : Router
    pub middleware : List Middleware
    pub error : Text

-- HttpServer::Impl::active
unfoldable pub active : Native → Bool
active n = n.listening || n.draining || not (n.connections == 0)

module _ {Request Response Router : Type 0} where
  -- HttpServer::Impl::dispatch, from the middleware that is left on
  unfoldable pub dispatch :
      (Router → Request → Response)
      → Router
      → List (Middleware Request Response)
      → Request
      → Response
  dispatch route_of router [] request = route_of router request
  dispatch route_of router (m ∷ ms) request = m request (dispatch route_of router ms)

  abbrev added :
      WebServer Request Response Router
      → Text ⊎ Router
      → Option WebError × WebServer Request Response Router
  added d (inl e) = (some (of_router e), d)
  added d (inr r) = (none, record d { router = r })

  -- HttpServer::route; `add` is the router's.
  unfoldable pub route :
      (Router → Text ⊎ Router)
      → WebServer Request Response Router
      → Option WebError × WebServer Request Response Router
  route add d = if active d.native then (some invalid_state, d) else added d (add d.router)

  abbrev pushed :
      WebServer Request Response Router
      → Option (Middleware Request Response)
      → Option WebError × WebServer Request Response Router
  pushed d none = (some invalid_argument, d)
  pushed d (some m) =
      if length d.middleware == 64
      then (some too_large, d)
      else (none, record d { middleware = d.middleware ++ m ∷ [] })

  -- HttpServer::use; `none` is an empty function.
  unfoldable pub use_middleware :
      Option (Middleware Request Response)
      → WebServer Request Response Router
      → Option WebError × WebServer Request Response Router
  use_middleware m d = if active d.native then (some invalid_state, d) else pushed d m

  -- HttpServer::listen and listenLocal; `bind` is the library's, with its answer.
  unfoldable pub listen :
      (Native → Bool × Native)
      → WebServer Request Response Router
      → Bool × WebServer Request Response Router
  listen bind d =
      let (ok, native) = bind d.native in
      if active d.native
      then (false, record d { error = text "HTTP server is already active" })
      else (ok, record d { error = []; native = native })

  -- HttpServer::error
  unfoldable pub error_of : WebServer Request Response Router → Text
  error_of d = if is_empty d.error then d.native.error else d.error
