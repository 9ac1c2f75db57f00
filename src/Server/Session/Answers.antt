-- ===== src/Server/Session/Answers.antt =====
-- The requests that a session answers, and its responses.
use hzrobot.Server.Session.{Session}
