-- ===== src/Network/Writing.antt =====
-- Operations of client.c that enter the path in the namenode's lists, over the network: write.
use dsproj.Posix.{Posix}
use dsproj.Dispatch.Request.{Request}
