-- ===== src/App/Program.antt =====
-- The running program of src/main.rs: the DNS server, the updater and the web API on the state that
-- they share. A query, a request to the API, a wake-up of the updater and the change of the blocklist
-- that follows its downloads are each one step, in any order.
pub mod Refines
pub mod Served
pub mod Shown
pub mod Updates
pub mod Unbound
use ad_nope.Prelude.{ℕ, ◌≡◌, String, Bool, true, false, not, Option, List, [], ◌∷◌, Outcome}
use ad_nope.Config.{Config}
use ad_nope.Db.{Sqlite, Formats}
use ad_nope.Resolver.Create.{Environment}
use ad_nope.Server.Interfaces.{CacheLibrary, NameParser, Key}
use ad_nope.Server.Query.{Request, Clock, Handler}
use ad_nope.Server.Upstreams.{Network}
use ad_nope.Api.{ApiState, RefreshChannel}
use ad_nope.Api.Source.{ApiDataSource}
use ad_nope.Api.Routes.{HttpRequest, handle}
use ad_nope.Api.Refreshing.{fresh}
use ad_nope.App.Start
use ad_nope.App.Start.{AppServer, Downloads, serve, refresh_entry, update_round}
use ad_nope.App.Updater
use ad_nope.App.Updater.{TimerLibrary, Updater, scheduled, forced}

-- What the program relies on: the platform and the libraries.
pub record World : Type 1 where
  pub env : Environment
  pub net : Network
  pub moka : CacheLibrary
  pub names : NameParser
  pub to_lowercase : String → String
  pub sqlite : Sqlite
  pub formats : Formats
  pub from_json : String → Option ℕ
  pub File : Type 0
  pub assets : String → Option File
  pub tokio : TimerLibrary moka.max_instant

-- A query, the background task of a stale entry, a request to the API with what it then reads the
-- statistics and the logs from, a wake-up by the timer or by a message, and the end of the downloads.
pub data Happening : Type 0 where
  query : Clock → Request → Happening
  stale : ℕ → Key → Happening
  called : HttpRequest → ApiDataSource → Happening
  ticked received : ℕ → Happening
  updated : Downloads → Happening

module _ (w : World) where
  -- The server whose pause state the API shares, the updater, and whether it is downloading.
  pub record Program : Type 0 where
    pub server : AppServer w.env w.net w.moka w.names w.to_lowercase
    pub updater : Updater w.tokio
    pub downloading : Bool

  abbrev pub api_state : Config → ApiDataSource → Program → ApiState
  api_state config source p = record {
    data_source = source;
    engine = p.server.app_state;
    config = config;
    refresh_sender = p.updater.channel;
  }

  module _ (h : Handler) where
    abbrev pub write_back : Program → ApiState → Program
    write_back p s = record p {
      server = record p.server { app_state = s.engine };
      updater = record p.updater { channel = s.refresh_sender };
    }

    unfoldable pub call : HttpRequest → ApiDataSource → Program → Program
    call r source p =
        write_back p
          (handle w.sqlite w.formats w.from_json w.moka.max_instant w.assets r
            (api_state h.config source p)).1

    abbrev pub served : Program → Start.Event → Program
    served p e = record p {
      server = Start.step w.env w.net w.moka w.names w.to_lowercase w.moka.max_instant h p.server e;
    }

    pub data Step : Program → Happening → Program → Type 0 where
      on_query :
          {p : Program} (clock : Clock) (request : Request)
          → Step p (query clock request) (served p (serve clock request))
      on_stale :
          {p : Program} (now : ℕ) (key : Key)
          → Step p (stale now key) (served p (refresh_entry now key))
      on_call :
          {p : Program} (r : HttpRequest) (source : ApiDataSource)
          → Step p (called r source) (call r source p)
      on_tick :
          {p : Program} {u : Updater w.tokio} (now : ℕ)
          → p.downloading ≡ false
          → Updater.Step w.tokio p.updater (scheduled now) u
          → Step p (ticked now) (record p { updater = u; downloading = true })
      on_message :
          {p : Program} {u : Updater w.tokio} (now : ℕ)
          → p.downloading ≡ false
          → Updater.Step w.tokio p.updater (forced now) u
          → Step p (received now) (record p { updater = u; downloading = true })
      on_update :
          {p : Program} (d : Downloads)
          → p.downloading ≡ true
          → Step p (updated d) (record p {
            server = update_round w.env w.net w.moka w.names w.to_lowercase h d p.server;
            downloading = false;
          })

    -- What happens, in its order.
    pub data Runs : Program → List Happening → Program → Type 0 where
      done : {p : Program} → Runs p [] p
      next :
          {p q r : Program} {e : Happening} {es : List Happening}
          → Step p e q
          → Runs q es r
          → Runs p (e ∷ es) r

  -- The channel once the API has started: if its port cannot be bound, `unwrap` panics in its task, and
  -- the only sender is gone.
  abbrev pub api_channel : Bool → RefreshChannel
  api_channel bound = record fresh { disconnected = not bound }

  -- The program when its tasks have started: the timer is made, the channel is new, and the port of the
  -- API is bound or not.
  abbrev pub launched :
      AppServer w.env w.net w.moka w.names w.to_lowercase → w.tokio.Timer → ℕ → Bool → Program
  launched server timer now bound = record {
    server = server;
    updater = record { timer = timer; channel = api_channel bound; woken = now };
    downloading = false;
  }
