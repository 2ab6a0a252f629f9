-- ===== src/Translations/Listener/Targets.antt =====
-- The clusters that a listener sends its traffic to.
use lightpath.Prelude.{◌≡◌, refl, String, Bool, Bool-cases, inl, inr, List, [], ◌∷◌, ◌++◌}
use lightpath.Prelude.Int.{ℤ}
use lightpath.Translations.Envoy.{
  Route, VirtualHost, Filter, FilterConfig, tcp_proxy, http_connection_manager, FilterChain,
  Listener,
}
use lightpath.Translations.PortSettings.{PortSettings, Protocol, tcp, http, redis}
use lightpath.Translations.Filter.{gen_tcp_filter_chain, gen_http_filter_chain, anycast}
use lightpath.Translations.Listener.{gen_listener, filter_chains_for}

abbrev route_targets : List Route → List String
route_targets [] = []
route_targets (route ∷ rest) = route.action.cluster ∷ route_targets rest

abbrev host_targets : List VirtualHost → List String
host_targets [] = []
host_targets (host ∷ rest) = route_targets host.routes ++ host_targets rest

abbrev config_targets : FilterConfig → List String
config_targets (tcp_proxy proxy) = proxy.cluster ∷ []
config_targets (http_connection_manager hcm) = host_targets hcm.virtual_hosts

abbrev filter_targets : List Filter → List String
filter_targets [] = []
filter_targets (filter ∷ rest) = config_targets filter.config ++ filter_targets rest

abbrev chain_targets : List FilterChain → List String
chain_targets [] = []
chain_targets (chain ∷ rest) = filter_targets chain.filters ++ chain_targets rest

-- The clusters of the proxies and of the routes of a listener.
abbrev pub listener_targets : Listener → List String
listener_targets listener = chain_targets listener.filter_chains

-- What a protocol leaves of the one target.
abbrev pub served : Protocol → String → List String
served redis target = []
served _ target = target ∷ []

http_targets :
    (port_settings : PortSettings) (target : String)
    → chain_targets (gen_http_filter_chain port_settings target) ≡ target ∷ []
unfolding gen_http_filter_chain anycast
http_targets port_settings target = elim (Bool-cases port_settings.access_log) [
  | inl logged ↦ rw logged refl
  | inr silent ↦ rw silent refl
]

chains_targets :
    (protocol : Protocol) (port_settings : PortSettings) (target : String)
    → chain_targets (filter_chains_for protocol port_settings target) ≡ served protocol target
unfolding filter_chains_for gen_tcp_filter_chain
chains_targets tcp port_settings target = refl
chains_targets http port_settings target = http_targets port_settings target
chains_targets redis port_settings target = refl

-- A listener of a TCP or an HTTP port sends all its traffic to the cluster that it is given; a listener
-- of a Redis port sends it nowhere.
pub gen_listener-targets :
    (name ip : String) (port : ℤ) (bind : Bool) (port_settings : PortSettings) (target : String)
    → listener_targets (gen_listener name ip port bind port_settings target)
      ≡ served port_settings.protocol target
unfolding gen_listener
gen_listener-targets name ip port bind port_settings target =
    chains_targets port_settings.protocol port_settings target
