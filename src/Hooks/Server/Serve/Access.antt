-- ===== src/Hooks/Server/Serve/Access.antt =====
-- Who may report to the endpoint.
use terminal_x.Hooks.Server.Serve.{Server}
