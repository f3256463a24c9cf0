-- ===== src/Queue/History/Methods.antt =====
-- The methods of janus_graph/pipeline/queue.py that other processes can interrupt, as runs of the
-- pieces between the gaps.
