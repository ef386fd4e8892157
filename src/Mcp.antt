-- ===== src/Mcp.antt =====
-- The toolkit for the Model Context Protocol (src/electripy/ai/mcp/): its messages, the tool server and
-- the synchronous client.
pub mod Domain
pub mod Server
pub mod Client
mod Tests
