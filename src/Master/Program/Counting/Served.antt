-- ===== src/Master/Program/Counting/Served.antt =====
-- src/main.c: the count of the children over the whole loop of `main`.
use haa_s_libssh.Common.Ends.{Ends}
use haa_s_libssh.Config.{Config}
use haa_s_libssh.Master.{Master, Point}
use haa_s_libssh.Master.System.{Kernel, Session, Process}
use haa_s_libssh.Master.Program.Counting.Pieces.{At}

module _ (k : Kernel) (s : Session) (config : Config) (m : Master) where
  -- The count behind a piece of a round.
  abbrev Selects : Process → Type 0
  Selects p = At config.conn_limit m Point.at_select p
