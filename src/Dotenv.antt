-- ===== src/Dotenv.antt =====
-- internal/dotenvparse/parse.go: the records of a .env file, and what they give. The parser godotenv
-- and `strings.TrimSpace` are parameters; so is the conversion of a scalar (internal/typecoerce).
pub mod Records
pub mod Reading
pub mod Lines
pub mod Accepted
