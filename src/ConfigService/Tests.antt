-- ===== src/ConfigService/Tests.antt =====
-- Examples of the configuration service over a table kept as a list of rows.
mod Table
mod Examples
mod Updates
