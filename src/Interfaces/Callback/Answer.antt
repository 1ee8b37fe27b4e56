-- ===== src/Interfaces/Callback/Answer.antt =====
-- src/nexusflow/interfaces/http/routes/worker.py: a callback settles its attempt and the task
-- of it, or changes nothing.
