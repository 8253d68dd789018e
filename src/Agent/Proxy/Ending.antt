-- ===== src/Agent/Proxy/Ending.antt =====
-- tunnel.go: the end of the loops, and of `ProxyDataFrames`.
use cloudbridge.Common.Writer.{Writer}
