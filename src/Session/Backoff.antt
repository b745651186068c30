-- ===== src/Session/Backoff.antt =====
-- src/simulator/device-session.js: the bounds of the delay of `#beginReconnect`.
