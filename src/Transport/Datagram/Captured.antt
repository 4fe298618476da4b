-- ===== src/Transport/Datagram/Captured.antt =====
-- From the packet that the capture redirects to the datagram that the proxy sends on.
use network_proxy.Prelude.{◌==◌, ◌≡◌, false, not, ◌&&◌}
use network_proxy.Transport.Endpoint.{SockAddr, af_inet6}
use network_proxy.Transport.Datagram.{UdpProxyServer}

-- There is an upstream socket for the address.
abbrev pub HasSocket : UdpProxyServer → SockAddr → Type 0
HasSocket server endpoint =
    ((endpoint.sa_family == af_inet6) && not server.upstream_v6_valid) ≡ false
