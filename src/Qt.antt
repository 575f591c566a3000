-- ===== src/Qt.antt =====
-- What the program uses of Qt's value types: QString, QStringList and QMap.
pub mod Text
pub mod Map
pub mod Ordered
