-- ===== src/Transport/Session/Captured.antt =====
-- From the packet that the capture redirects to the upstream that its connection is given.
use network_proxy.Prelude.{Bytes, Option}
use network_proxy.Capture.FlowTable.{FlowKey}
use network_proxy.Transport.Endpoint.{SockAddr, endpoint_port}
use network_proxy.Transport.Session.{Course, Handled}

-- The key under which the server looks for a client.
abbrev pub tcp_key : (SockAddr → Bytes) → SockAddr → FlowKey
tcp_key ip_text client = record {
  protocol = 6;
  source_ip = ip_text client;
  source_port = endpoint_port client;
}

-- What a connection is given: the address that is dialled, and its pumps.
abbrev pub given : Handled → Option SockAddr × Course
given h = (h.dialled, h.course)
