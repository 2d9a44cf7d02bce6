-- ===== src/Controller/Handlers.antt =====
-- internal/controller/k8s/service/handlers: the handlers of the chain; each is given the next one.
mod Shared
mod Finalizer
mod Auth
mod ActivePeriod
mod Status
unfoldable pub use Shared.*
unfoldable pub use Finalizer.*
unfoldable pub use Auth.*
unfoldable pub use ActivePeriod.*
unfoldable pub use Status.*
