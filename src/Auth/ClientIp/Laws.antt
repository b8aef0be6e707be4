-- ===== src/Auth/ClientIp/Laws.antt =====
-- Who may choose the address that src/auth/client_ip.rs returns.
