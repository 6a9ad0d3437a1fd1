-- ===== src/Persist/RoundTrip.antt =====
-- What is written for the objects of a node, and what restoring makes of it.
